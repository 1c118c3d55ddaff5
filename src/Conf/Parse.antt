-- ===== src/Conf/Parse.antt =====
-- `parse_conf` of src/util/conf.c. A string is the list of its bytes before the NUL, so that the end of
-- the list stands for `*loop == '\0'`; a byte 0 in the list does too. `isspace` and `isprint` are those
-- of the C library.
use cserv.Prelude.{
  ℕ, Bool, true, false, not, Option, none, some, List, [], ◌∷◌, ◌==◌, if◌then◌else◌,
}

-- `loop` after a loop that runs while the byte passes the test
unfoldable pub skip : (ℕ → Bool) → List ℕ → List ℕ
skip test [] = []
skip test (c ∷ loop) = if test c then skip test loop else c ∷ loop

-- the bytes that such a loop has gone over
unfoldable pub passed : (ℕ → Bool) → List ℕ → List ℕ
passed test [] = []
passed test (c ∷ loop) = if test c then c ∷ passed test loop else []

-- `*loop == '#' || *loop == '\0'`
abbrev pub is_end : ℕ → Bool
is_end c = if c == 35 then true else c == 0

module _ (isspace isprint : ℕ → Bool) where
  -- the conditions of the four loops
  abbrev pub is_blank : ℕ → Bool
  is_blank c = if c == 0 then false else if isspace c then true else not (isprint c)

  abbrev pub in_key : ℕ → Bool
  in_key c =
      if is_end c then false else if c == 61 then false else if isspace c then false else isprint c

  abbrev pub in_separator : ℕ → Bool
  in_separator c =
      if is_end c
      then false
      else if c == 61
      then true
      else if isspace c
      then true
      else not (isprint c)

  abbrev pub in_value : ℕ → Bool
  in_value c = if is_end c then false else if isspace c then false else isprint c

  -- the key and the value, from the first byte that is not blank on
  unfoldable pub parse_entry : List ℕ → Option (List ℕ × List ℕ)
  unfolding skip passed
  parse_entry [] = none
  parse_entry (c ∷ loop) =
      if is_end c
      then none
      else some
          (passed in_key (c ∷ loop), passed in_value (skip in_separator (skip in_key (c ∷ loop))))

  -- `none` is the result -1
  unfoldable pub parse_conf : List ℕ → Option (List ℕ × List ℕ)
  unfolding skip parse_entry
  parse_conf str = parse_entry (skip is_blank str)
