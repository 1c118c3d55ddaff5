-- ===== src/Conf/Load.antt =====
-- `load_conf` and `get_conf_entry` of src/util/conf.c.
use cserv.Prelude.{
  ℕ, Bool, true, false, Option, none, some, List, [], ◌∷◌, length, leb, ◌==◌, if◌then◌else◌,
}
use cserv.Conf.Parse.{parse_conf}

-- `str_equal` of src/util/str.h
unfoldable pub str_equal : List ℕ → List ℕ → Bool
str_equal [] [] = true
str_equal [] (d ∷ t) = false
str_equal (c ∷ s) [] = false
str_equal (c ∷ s) (d ∷ t) = if c == d then str_equal s t else false

-- `struct conf`, without the pointer to the next one
pub data Conf : Type 0 where
  conf : List ℕ → List ℕ → Conf

abbrev pub conf_kv_len : ℕ
conf_kv_len = 64

-- what a function leaves that may call `exit`
pub data Result {ℓ} (A : Type ℓ) : Type ℓ where
  returns : A → Result A
  exits : Result A

infixl 5 ◌>>=◌
abbrev pub ◌>>=◌ {ℓ κ} : {A : Type ℓ} {B : Type κ} → Result A → (A → Result B) → Result B
returns a >>= f = f a
exits >>= f = exits

unfoldable pub get_conf_entry : List ℕ → List Conf → Result (List ℕ)
unfolding str_equal
get_conf_entry key [] = exits
get_conf_entry key (conf k value ∷ config) =
    if str_equal k key then returns value else get_conf_entry key config

module _ (isspace isprint : ℕ → Bool) where
  -- A round of the loop for an entry; `allocated` is whether `malloc` succeeds.
  unfoldable pub add_entry : Bool → Option (List ℕ × List ℕ) → List Conf → Result (List Conf)
  add_entry allocated none head = returns head
  add_entry allocated (some (key, value)) head =
      if leb conf_kv_len (length key)
      then exits
      else if leb conf_kv_len (length value)
      then exits
      else if allocated
      then returns (conf key value ∷ head)
      else exits

  -- The loop of `load_conf`, over the strings that `fgets` answers, each with whether `malloc` has
  -- memory then.
  unfoldable pub load_lines : List (Bool × List ℕ) → List Conf → Result (List Conf)
  unfolding parse_conf add_entry
  load_lines [] head = returns head
  load_lines ((allocated, buff) ∷ lines) head =
      elim (add_entry allocated (parse_conf isspace isprint buff) head) [
        | returns next ↦ load_lines lines next
        | exits ↦ exits
      ]

  -- `none` is a file that cannot be opened. The old `config` is freed and has no part in the result.
  unfoldable pub load_conf : Option (List (Bool × List ℕ)) → Result (List Conf)
  unfolding load_lines
  load_conf none = exits
  load_conf (some lines) = load_lines lines []
