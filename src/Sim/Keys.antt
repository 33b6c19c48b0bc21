-- ===== src/Sim/Keys.antt =====
-- sim/task.cc: the keys of the task, a table from registers to names.
use brittle_kernel.Prelude.{
  ℕ, zero, suc, ◌+◌, Bool, true, false, ◌&&◌, List, [], ◌∷◌, ◌==◌, if◌then◌else◌, update,
}

abbrev pub n_keys_sent : ℕ
n_keys_sent = 4

-- The name of a key is a string: its characters.
abbrev pub KeyName : Type 0
KeyName = List ℕ

-- The names of the keys that go with a message.
pub record MessageKeyNames : Type 0 where
  pub name : ℕ → KeyName

-- The comparison of two strings.
unfoldable pub same_name : KeyName → KeyName → Bool
same_name [] [] = true
same_name [] (d ∷ ds) = false
same_name (c ∷ cs) [] = false
same_name (c ∷ cs) (d ∷ ds) = (c == d) && same_name cs ds

-- The loop of the comparison from key `i`, for the rounds left.
unfoldable pub same_names_from : ℕ → ℕ → MessageKeyNames → MessageKeyNames → Bool
unfolding same_name
same_names_from zero i a b = true
same_names_from (suc n) i a b = same_name (a.name i) (b.name i) && same_names_from n (i + 1) a b

unfoldable pub same_names : MessageKeyNames → MessageKeyNames → Bool
unfolding same_names_from
same_names = same_names_from n_keys_sent 0

unfoldable pub no_names : MessageKeyNames
no_names = record { name = λ i. [] }

-- "<REVOKED>", in the characters' codes.
abbrev revoked : KeyName
revoked = 60 ∷ 82 ∷ 69 ∷ 86 ∷ 79 ∷ 75 ∷ 69 ∷ 68 ∷ 62 ∷ []

-- The keys by register; a missing one is the empty string.
abbrev pub Clist : Type 0
Clist = ℕ → KeyName

unfoldable pub get_key : ℕ → Clist → KeyName
get_key index clist = clist index

unfoldable pub set_key : ℕ → KeyName → Clist → Clist
set_key index name clist = update clist index name

-- The case of copy_cap: the key moves.
unfoldable pub move_key : ℕ → ℕ → Clist → Clist
unfolding set_key get_key
move_key from to clist = set_key from [] (set_key to (get_key from clist) clist)

unfoldable pub get_pass_keys : Clist → MessageKeyNames
unfolding get_key
get_pass_keys clist = record {
  name = λ i.
      if i == 0
      then get_key 0 clist
      else if i == 1
      then get_key 1 clist
      else if i == 2
      then get_key 2 clist
      else get_key 3 clist;
}

unfoldable pub set_from : ℕ → ℕ → MessageKeyNames → Clist → Clist
unfolding set_key
set_from zero i k clist = clist
set_from (suc n) i k clist = set_from n (i + 1) k (set_key i (k.name i) clist)

unfoldable pub set_pass_keys : MessageKeyNames → Clist → Clist
unfolding set_from
set_pass_keys = set_from n_keys_sent 0

unfoldable pub clear_pass_keys : Clist → Clist
unfolding set_pass_keys no_names
clear_pass_keys = set_pass_keys no_names

-- The loop of `revoke_key` from register `i`.
unfoldable pub revoke_from : ℕ → ℕ → KeyName → Clist → Clist
unfolding get_key set_key same_name
revoke_from zero i k clist = clist
revoke_from (suc n) i k clist =
    revoke_from n (i + 1) k
      (if same_name (get_key i clist) k then set_key i revoked clist else clist)

unfoldable pub revoke_key : KeyName → Clist → Clist
unfolding revoke_from
revoke_key = revoke_from n_keys_sent 0
