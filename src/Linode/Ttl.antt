-- ===== src/Linode/Ttl.antt =====
-- The lifetimes of records that are sent to Linode: the module `serialize` of
-- services/linode/src/lib.rs.
use emporium.Prelude.{
  ℕ, ◌≡◌, refl, ◌≤◌, ◌<◌, ◌⊎◌, inl, inr, sym, Bool, true, false, ◌||◌, ◌&&◌, ap, ◌∙◌, ◌≢◌, List, [],
  ◌∷◌, ltb, nat_beq, arith, Bool-cases, if◌then◌else◌,
}
use mathlib.Core.Bool.{true≢false}

-- `TLL_VALUES`, in seconds
abbrev pub ttl_values : List ℕ
ttl_values =
    300 ∷ 3600 ∷ 7200 ∷ 14400 ∷ 28800 ∷ 57600 ∷ 86400 ∷ 172800 ∷ 345600 ∷ 604800 ∷ 1209600 ∷ 2419200
    ∷ []

-- `contains`
unfoldable pub contains : List ℕ → ℕ → Bool
contains [] ttl = false
contains (value ∷ values) ttl = nat_beq value ttl || contains values ttl

-- the loop over the candidates
unfoldable pub first_above : List ℕ → ℕ → ℕ
first_above [] ttl = ttl
first_above (candidate ∷ values) ttl =
    if ltb ttl candidate then candidate else first_above values ttl

-- `serialize::ttl`, of a duration's seconds
unfoldable pub serialize_ttl : ℕ → ℕ
unfolding contains first_above
serialize_ttl ttl = if contains ttl_values ttl then ttl else first_above ttl_values ttl

abbrev is_increasing : List ℕ → Bool
is_increasing [] = true
is_increasing (x ∷ []) = true
is_increasing (x ∷ y ∷ ys) = ltb x y && is_increasing (y ∷ ys)

increasing-rest : (x : ℕ) (xs : List ℕ) → is_increasing (x ∷ xs) ≡ true → is_increasing xs ≡ true
increasing-rest x [] h = refl
increasing-rest x (y ∷ ys) h = ground arith

increasing-next : (x y : ℕ) (ys : List ℕ) → is_increasing (x ∷ y ∷ ys) ≡ true → x < y
increasing-next x y ys h = ground arith

contains-cases :
    (y v : ℕ) (ys : List ℕ) → contains (y ∷ ys) v ≡ true → (y ≡ v) ⊎ (contains ys v ≡ true)
unfolding contains
contains-cases y v ys h = ground arith

contains-below :
    (x v : ℕ) (xs : List ℕ) → is_increasing (x ∷ xs) ≡ true → contains xs v ≡ true → x < v
unfolding contains
contains-below x v [] up h = absurd (grind arith)
contains-below x v (y ∷ ys) up h = elim (contains-cases y v ys h) [
  | inl e ↦ omega (arith, increasing-next x y ys up)
  | inr k ↦
      omega
        (arith, increasing-next x y ys up, contains-below y v ys (increasing-rest x (y ∷ ys) up) k)
]

contains-here : (c : ℕ) (cs : List ℕ) → contains (c ∷ cs) c ≡ true
unfolding contains
contains-here c cs = ground arith

lt→ltb : (a b : ℕ) → a < b → ltb a b ≡ true
lt→ltb a b h = ground arith

contains-there : (y v : ℕ) (ys : List ℕ) → contains ys v ≡ true → contains (y ∷ ys) v ≡ true
unfolding contains
contains-there y v ys h = ground arith

-- the first value above, of which one is
first_above_lem :
    (values : List ℕ) (ttl v : ℕ)
    → is_increasing values ≡ true
    → contains values v ≡ true
    → ttl < v
    → (contains values (first_above values ttl) ≡ true)
      × (ttl ≤ first_above values ttl)
      × (first_above values ttl ≤ v)
unfolding contains first_above
first_above_lem [] ttl v up h lt = absurd (grind arith)
first_above_lem (c ∷ cs) ttl v up h lt = elim (contains-cases c v cs h) [
  | inl e ↦ rw (lt→ltb ttl c (omega arith)) (contains-here c cs, omega arith, omega arith)
  | inr k ↦ elim (Bool-cases (ltb ttl c)) [
    | inl above ↦
        let le = contains-below c v cs up k in
        rw above (contains-here c cs, ground arith, omega arith)
    | inr e ↦
        let (a, b, d) = first_above_lem cs ttl v (increasing-rest c cs up) k lt in
        rw e (contains-there c (first_above cs ttl) cs a, b, d)
  ]
]

not-contains :
    (ttl v : ℕ) (values : List ℕ) → contains values v ≡ true → contains values ttl ≡ false → ttl ≢ v
not-contains ttl v values h k e = true≢false (sym h ∙ ap (contains values) (sym e) ∙ k)

-- Where a value that Linode accepts is no less than the lifetime, what is sent is the least such
-- value.
pub serialize_ttl_lem :
    (ttl v : ℕ)
    → contains ttl_values v ≡ true
    → ttl ≤ v
    → (contains ttl_values (serialize_ttl ttl) ≡ true)
      × (ttl ≤ serialize_ttl ttl)
      × (serialize_ttl ttl ≤ v)
unfolding serialize_ttl
serialize_ttl_lem ttl v h le = elim (Bool-cases (contains ttl_values ttl)) [
  | inl e ↦ rw (e, serialize_ttl) (e, omega arith, le)
  | inr e ↦
      rw (e, serialize_ttl)
        (first_above_lem ttl_values ttl v refl h (below (not-contains ttl v ttl_values h e)))
]
  where
    below : ttl ≢ v → ttl < v
    below ne = omega arith
