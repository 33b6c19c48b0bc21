-- ===== src/Kernel/Dispatch/Calls/Answers.antt =====
-- The reply to a context that waits for it: ScopedReplySender, Context::deliver_from for a reply, and
-- the rendezvous. What the context is left with is followed as its body.
use brittle_kernel.Prelude.{
  ℕ, zero, suc, ◌+◌, ◌<◌, ◌≡◌, refl, arith, true, none, ◌==◌, update, if◌then◌else◌, Bool-cases,
  inl, inr,
}
use brittle_kernel.Run.{ok, panic_unless, panic_if, ◌>>=◌, ◌>>◌, pure}
use brittle_kernel.Run.Returns.{Runs, Runs-bind, Runs-bind_value}
use brittle_kernel.Abi.Sizes.{n_priorities}
use brittle_kernel.Links
use brittle_kernel.Kernel.{
  Kernel, Key, ContextBody, context, receiving, runnable, gets, modify, on_lists, put_body,
  object_at, ctx_item,
}
use brittle_kernel.Kernel.Keys.{Bank, registers, map_index, set_key, copy_keys}
use brittle_kernel.Kernel.Protocol.Context.{is_awaiting_reply}
use brittle_kernel.Kernel.Scheduler.{make_runnable, set_state, pend_switch}

-- The context at `c` has the body `b`.
abbrev pub At : ℕ → ContextBody → Kernel → Type 0
At c b k = object_at k c ≡ context b

pub put_body-At :
    (c : ℕ) (b : ContextBody) (f : ContextBody → ContextBody) (k : Kernel)
    → At c b k
    → At c (f b) (put_body c f k)
put_body-At c b f k at = ground (arith, at)

-- A key of the reply is stored, unless the map names register 0.
abbrev pub stored : ℕ → ℕ → Key → ContextBody → ContextBody
stored map i key b =
    if map_index map i == 0 then b else record b { keys = update b.keys (map_index map i) key }

-- The keys from `i` on, for the rounds left.
unfoldable pub stored_from : ℕ → ℕ → ℕ → Bank → ContextBody → ContextBody
stored_from zero i map keys b = b
stored_from (suc n) i map keys b = stored_from n (i + 1) map keys (stored map i (keys i) b)

module _ (c : ℕ) where
  pub Runs-put :
      (b : ContextBody) (f : ContextBody → ContextBody)
      → Runs (At c b) (λ _. At c (f b)) (modify (put_body c f))
  unfolding modify
  Runs-put b f = record { at = λ k at. put_body-At c b f k at }

  Runs-set_key :
      (map i : ℕ) (key : Key) (bank : Bank) (b : ContextBody)
      → Runs (At c b) (λ _. At c (stored map i key b)) (set_key (registers c map) i key bank)
  unfolding set_key
  Runs-set_key map i key bank b = record {
    at = λ k at. elim (Bool-cases (map_index map i == 0)) [
      | inl e ↦ rw e at
      | inr e ↦
          rw e (put_body-At c b (λ x. record x { keys = update x.keys (map_index map i) key }) k at)
    ];
  }

  -- The reply's keys are stored one by one.
  pub Runs-copy_keys :
      (n i map : ℕ) (keys bank : Bank) (b : ContextBody)
      → Runs
          (At c b)
          (λ _. At c (stored_from n i map keys b))
          (copy_keys n i (λ j. pure (keys j)) (registers c map) bank)
  unfolding copy_keys pure stored_from
  Runs-copy_keys zero i map keys bank b = record { at = λ k at. at }
  Runs-copy_keys (suc n) i map keys bank b =
      Runs-bind_value _ _ (At c b) (keys i) _ _ (record { at = λ k at. (refl, at) })
        (Runs-bind _ _ (λ _. At c (stored map i (keys i) b)) _ _
          (Runs-set_key map i (keys i) bank b)
          (λ bank'. Runs-copy_keys n (i + 1) map keys bank' (stored map i (keys i) b)))

  -- The result of a command that only reads.
  pub Runs-gets :
      {A : Type 0} (b : ContextBody) (f : Kernel → A) (a : A)
      → ((k : Kernel) → At c b k → f k ≡ a)
      → Runs (At c b) (λ x k. (x ≡ a) × At c b k) (gets f)
  unfolding gets
  Runs-gets b f a e = record { at = λ k at. (e k at, at) }

  Runs-pend_switch : (b : ContextBody) → Runs (At c b) (λ _. At c b) pend_switch
  unfolding pend_switch modify
  Runs-pend_switch b = record { at = λ k at. at }

  -- The context is in no list.
  pub record Waits (b : ContextBody) (k : Kernel) : Type 0 where
    pub here : At c b k
    pub unlinked : k.links.container (ctx_item c) ≡ none
    pub next : k.links.next (ctx_item c) ≡ ctx_item c
    pub prev : k.links.prev (ctx_item c) ≡ ctx_item c

  insert_lem :
      (p : ℕ) (s : Links.Links)
      → p < n_priorities
      → s.container (ctx_item c) ≡ none
      → s.next (ctx_item c) ≡ ctx_item c
      → s.prev (ctx_item c) ≡ ctx_item c
      → Links.insert p 0 (ctx_item c) s ≡ ok tt (Links.splice (0 + p) 0 (ctx_item c) s)
  unfolding Links.insert Links.is_linked panic_if panic_unless ◌>>=◌ ◌>>◌
  insert_lem p s lt u n q = ground (arith, u, n, q, lt)

  -- A write to the body of a context that waits.
  pub Runs-put_waiting :
      (b : ContextBody) (f : ContextBody → ContextBody)
      → Runs (Waits b) (λ _. Waits (f b)) (modify (put_body c f))
  unfolding modify
  Runs-put_waiting b f = record {
    at = λ k w. record {
      here = put_body-At c b f k w.here;
      unlinked = w.unlinked;
      next = w.next;
      prev = w.prev;
    };
  }

  pub Runs-make_runnable :
      (b : ContextBody)
      → b.priority < n_priorities
      → Runs (Waits b) (λ _. At c (record b { state = runnable })) (make_runnable c)
  unfolding make_runnable set_state gets on_lists pend_switch modify ◌>>=◌ ◌>>◌
  Runs-make_runnable b lt = record {
    at = λ k w.
        rw (w.here, insert_lem b.priority k.links lt w.unlinked w.next w.prev)
          (put_body-At c b (λ x. record x { state = runnable }) k w.here);
  }

  pub awaiting :
      (b : ContextBody) (k : Kernel)
      → Waits b k
      → b.state ≡ receiving
      → is_awaiting_reply k c ≡ true
  unfolding is_awaiting_reply Links.is_linked
  awaiting b k w r = ground (arith, w.here, w.unlinked, r)
