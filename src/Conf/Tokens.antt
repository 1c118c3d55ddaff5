-- ===== src/Conf/Tokens.antt =====
-- `parse_conf` of src/util/conf.c on the lines that a configuration is meant to have.
use cserv.Prelude.{ℕ, ◌≡◌, ◌≢◌, refl, ap, ◌∙◌, arith, Bool, true, false, some, List, [], ◌∷◌, ◌++◌}
use cserv.Conf.Parse.{
  skip, passed, is_end, is_blank, in_key, in_separator, in_value, parse_entry, parse_conf,
}

-- every byte passes the test
abbrev pub Passes : (ℕ → Bool) → List ℕ → Type 0
Passes test [] = Unit
Passes test (c ∷ s) = (test c ≡ true) × Passes test s

-- a loop with the test ends here
abbrev pub Stops : (ℕ → Bool) → List ℕ → Type 0
Stops test [] = Unit
Stops test (c ∷ s) = test c ≡ false

skip-append :
    (test : ℕ → Bool) (s rest : List ℕ)
    → Passes test s
    → Stops test rest
    → skip test (s ++ rest) ≡ rest
unfolding skip
skip-append test [] [] p h = refl
skip-append test [] (c ∷ rest) p h = rw h refl
skip-append test (c ∷ s) rest (e, p) h = rw e (skip-append test s rest p h)

passed-append :
    (test : ℕ → Bool) (s rest : List ℕ)
    → Passes test s
    → Stops test rest
    → passed test (s ++ rest) ≡ s
unfolding passed
passed-append test [] [] p h = refl
passed-append test [] (c ∷ rest) p h = rw h refl
passed-append test (c ∷ s) rest (e, p) h = rw e (ap (◌∷◌ c) (passed-append test s rest p h))

module _ (isspace isprint : ℕ → Bool) where
  key-not_blank : (c : ℕ) → in_key isspace isprint c ≡ true → is_blank isspace isprint c ≡ false
  key-not_blank c h = ground (arith, h)

  key-not_end : (c : ℕ) → in_key isspace isprint c ≡ true → is_end c ≡ false
  key-not_end c h = ground (arith, h)

  separator-not_key :
      (c : ℕ) → in_separator isspace isprint c ≡ true → in_key isspace isprint c ≡ false
  separator-not_key c h = ground (arith, h)

  value-not_separator :
      (c : ℕ) → c ≢ 61 → in_value isspace isprint c ≡ true → in_separator isspace isprint c ≡ false
  value-not_separator c n h = ground (arith, n, h)

  parse_entry-cons :
      (c : ℕ) (loop : List ℕ)
      → is_end c ≡ false
      → parse_entry isspace isprint (c ∷ loop)
        ≡ some (
          passed (in_key isspace isprint) (c ∷ loop),
          passed
              (in_value isspace isprint)
              (skip (in_separator isspace isprint) (skip (in_key isspace isprint) (c ∷ loop))),
        )
  unfolding parse_entry
  parse_entry-cons c loop h = rw h refl

  -- A line of blanks, a key, a separator, and a value that does not begin with `=`, whatever follows
  -- behind the value, is read as that key and that value: every form of `key = value` that the
  -- program could print is read back.
  pub parse_conf-tokens :
      (blank key separator value rest : List ℕ) (k s v : ℕ)
      → Passes (is_blank isspace isprint) blank
      → Passes (in_key isspace isprint) (k ∷ key)
      → Passes (in_separator isspace isprint) (s ∷ separator)
      → Passes (in_value isspace isprint) (v ∷ value)
      → v ≢ 61
      → Stops (in_value isspace isprint) rest
      → parse_conf isspace isprint
          (blank ++ ((k ∷ key) ++ ((s ∷ separator) ++ ((v ∷ value) ++ rest))))
        ≡ some (k ∷ key, v ∷ value)
  unfolding parse_conf
  parse_conf-tokens blank key separator value rest k s v pb pk ps pv n r =
      let tail : List ℕ = (v ∷ value) ++ rest in
      let front : List ℕ = (s ∷ separator) ++ tail in
      let a : skip (is_blank isspace isprint) (blank ++ ((k ∷ key) ++ front)) ≡ (k ∷ key) ++ front =
        skip-append (is_blank isspace isprint) blank ((k ∷ key) ++ front) pb
          (key-not_blank k (pk.0)) in
      let b : skip (in_key isspace isprint) ((k ∷ key) ++ front) ≡ front =
        skip-append (in_key isspace isprint) (k ∷ key) front pk (separator-not_key s (ps.0)) in
      let c : skip (in_separator isspace isprint) front ≡ tail =
        skip-append (in_separator isspace isprint) (s ∷ separator) tail ps
          (value-not_separator v n (pv.0)) in
      let d : passed (in_key isspace isprint) ((k ∷ key) ++ front) ≡ k ∷ key =
        passed-append (in_key isspace isprint) (k ∷ key) front pk (separator-not_key s (ps.0)) in
      let e : passed (in_value isspace isprint) tail ≡ v ∷ value =
        passed-append (in_value isspace isprint) (v ∷ value) rest pv r in
      ap (parse_entry isspace isprint) a
      ∙ parse_entry-cons k (key ++ front) (key-not_end k (pk.0))
      ∙ rw (b, c, d, e) refl
