-- ===== src/Meta/Unlink.antt =====
-- Taking the bucket of a path out of the chain of its row, on the array of buckets alone.
use spacefish.Prelude.{
  ℕ, ◌≡◌, ◌≢◌, refl, ◌∙◌, inl, inr, Bool, true, false, ◌==◌, ◌&&◌, not, AllBelow, Option, none,
  some, List, [], ◌∷◌, arith, if◌then◌else◌, has, Distinct, Bool-cases,
}
use spacefish.Text.{CString, same_path}
use spacefish.Meta.{MetaBucket}
use spacefish.Meta.Chain.{Chain, nil, cons, first_match, before_match}

-- The list without the first bucket that has the path.
unfoldable pub drop_match : CString → (ℕ → MetaBucket) → List ℕ → List ℕ
drop_match str arr [] = []
drop_match str arr (ix ∷ xs) =
    if same_path str (arr ix).path then xs else ix ∷ drop_match str arr xs

abbrev pub is_none : Option ℕ → Bool
is_none none = true
is_none (some _) = false

-- A chain survives what leaves its own links alone.
pub frame :
    {arr arr' : ℕ → MetaBucket} {first : Option ℕ} {xs : List ℕ}
    → Chain arr first xs
    → ((j : ℕ) → has j xs ≡ true → (arr' j).next_ix ≡ (arr j).next_ix)
    → Chain arr' first xs
frame nil h = nil
frame (cons {ix} e c) h = cons (h ix (ground arith) ∙ e) (frame c (λ j i. h j (ground arith)))

module _ (str : CString) (arr : ℕ → MetaBucket) where
  pub first_match-mem : (xs : List ℕ) {ix : ℕ} → first_match str arr xs ≡ some ix → has ix xs ≡ true
  unfolding first_match
  first_match-mem [] h = absurd (cc)
  first_match-mem (x ∷ xs) {ix} h = ground (arith, first_match-mem xs {ix = ix})

  has_not_dropped : (j : ℕ) (xs : List ℕ) → has j xs ≡ false → has j (drop_match str arr xs) ≡ false
  unfolding drop_match
  has_not_dropped j [] h = refl
  has_not_dropped j (x ∷ xs) h = elim (Bool-cases (same_path str (arr x).path)) [
    | inl hit ↦ ground arith
    | inr miss ↦ ground (arith, has_not_dropped j xs)
  ]

  before_match-mem :
      (x : ℕ) (xs : List ℕ)
      → (p : ℕ) × (before_match str arr (some x) xs ≡ some p) × (has p (x ∷ xs) ≡ true)
  unfolding before_match
  before_match-mem x [] = (x, refl, ground arith)
  before_match-mem x (y ∷ ys) = elim (Bool-cases (same_path str (arr y).path)) [
    | inl hit ↦ rw hit (x, refl, ground arith)
    | inr miss ↦ let (p, e, i) = before_match-mem y ys in rw miss (p, e, ground arith)
  ]

  pub before_match-has :
      (xs : List ℕ) {p : ℕ} → before_match str arr none xs ≡ some p → has p xs ≡ true
  unfolding before_match
  before_match-has [] h = absurd (cc)
  before_match-has (y ∷ ys) h = elim (Bool-cases (same_path str (arr y).path)) [
    | inl hit ↦ absurd (ground arith)
    | inr miss ↦ let (p, e, i) = before_match-mem y ys in ground arith
  ]

  -- All but the match are left.
  pub has-drop_match :
      {ix : ℕ} (xs : List ℕ)
      → Distinct xs
      → first_match str arr xs ≡ some ix
      → (j : ℕ) → has j (drop_match str arr xs) ≡ (has j xs && not (j == ix))
  unfolding first_match drop_match
  has-drop_match [] d h j = absurd (cc)
  has-drop_match {ix} (x ∷ xs) (new, d) h j = elim (Bool-cases (same_path str (arr x).path)) [
    | inl hit ↦ ground arith
    | inr miss ↦
        let h' : first_match str arr xs ≡ some ix = ground arith in
        ground (arith, first_match-mem xs h', has-drop_match xs d h' j)
  ]

  pub Distinct-drop_match : (xs : List ℕ) → Distinct xs → Distinct (drop_match str arr xs)
  unfolding drop_match
  Distinct-drop_match [] d = tt
  Distinct-drop_match (x ∷ xs) (new, d) = elim (Bool-cases (same_path str (arr x).path)) [
    | inl hit ↦ rw hit d
    | inr miss ↦ rw miss (has_not_dropped x xs new, Distinct-drop_match xs d)
  ]

  pub AllBelow-drop_match :
      (n : ℕ) (xs : List ℕ) → AllBelow n xs → AllBelow n (drop_match str arr xs)
  unfolding drop_match
  AllBelow-drop_match n [] h = tt
  AllBelow-drop_match n (x ∷ xs) (less, h) = elim (Bool-cases (same_path str (arr x).path)) [
    | inl hit ↦ rw hit h
    | inr miss ↦ rw miss (less, AllBelow-drop_match n xs h)
  ]

  -- The bucket before the match is another one.
  pub before_match-ne :
      {ix : ℕ} (prev : Option ℕ) (xs : List ℕ)
      → prev ≢ some ix
      → Distinct xs
      → first_match str arr xs ≡ some ix
      → before_match str arr prev xs ≢ some ix
  unfolding first_match before_match
  before_match-ne prev [] ne d h = ne
  before_match-ne {ix} prev (y ∷ ys) ne (new, d) h =
      elim (Bool-cases (same_path str (arr y).path)) [
        | inl hit ↦ rw hit ne
        | inr miss ↦
            let h' : first_match str arr ys ≡ some ix = ground arith in
            let inside = first_match-mem ys h' in
            rw miss (before_match-ne (some y) ys (ground arith) d h')
      ]

  -- `arr'` has the links of `arr`, but those of the bucket `b` before `ix` go round `ix`.
  pub record Bypass (arr' : ℕ → MetaBucket) (b : Option ℕ) (ix : ℕ) : Type 0 where
    pub others : (j : ℕ) → j ≢ ix → b ≢ some j → (arr' j).next_ix ≡ (arr j).next_ix
    pub around : (p : ℕ) → b ≡ some p → (arr' p).next_ix ≡ (arr ix).next_ix

  module _ {arr' : ℕ → MetaBucket} {ix : ℕ} where
    pub Bypass-tail :
        {first : Option ℕ} {xs : List ℕ} (x : ℕ)
        → (arr x).next_ix ≡ first
        → Chain arr first xs
        → has x xs ≡ false
        → Distinct xs
        → first_match str arr xs ≡ some ix
        → Bypass arr' (before_match str arr (some x) xs) ix
        → Chain arr' (some x) (x ∷ drop_match str arr xs)
    unfolding first_match before_match drop_match
    Bypass-tail x link nil out d h b = absurd (cc)
    Bypass-tail x link (cons {ix = y} {xs = ys} e c) out (new, d) h b =
        elim (Bool-cases (same_path str (arr y).path)) [
          | inl hit ↦
              let same : y ≡ ix = ground arith in
              let here : before_match str arr (some x) (y ∷ ys) ≡ some x = ground arith in
              let link' : (arr' x).next_ix ≡ (arr y).next_ix = rw same (b.around x here) in
              rw hit (cons (link' ∙ e) (frame c (λ j i. b.others j (ground arith) (ground arith))))
          | inr miss ↦
              let h' : first_match str arr ys ≡ some ix = ground arith in
              let later : before_match str arr (some x) (y ∷ ys)
                  ≡ before_match str arr (some y) ys =
                ground arith in
              let (p, at_p, i) = before_match-mem y ys in
              let inside = first_match-mem ys h' in
              let link' : (arr' x).next_ix ≡ (arr x).next_ix =
                b.others x (ground arith) (ground (arith, later, at_p)) in
              rw miss (cons (link' ∙ link) (Bypass-tail y e c new d h' (rw later at b)))
        ]

    pub bypass :
        {first : Option ℕ} {xs : List ℕ}
        → Chain arr first xs
        → Distinct xs
        → first_match str arr xs ≡ some ix
        → Bypass arr' (before_match str arr none xs) ix
        → Chain arr'
            (if is_none (before_match str arr none xs) then (arr ix).next_ix else first)
            (drop_match str arr xs)
    unfolding first_match before_match drop_match
    bypass nil d h b = absurd (cc)
    bypass (cons {ix = y} {xs = ys} e c) (new, d) h b =
        elim (Bool-cases (same_path str (arr y).path)) [
          | inl hit ↦
              let same : y ≡ ix = ground arith in
              rw (hit, ← same, e) (frame c (λ j i. b.others j (ground arith) (ground arith)))
          | inr miss ↦
              let h' : first_match str arr ys ≡ some ix = ground arith in
              let later : before_match str arr none (y ∷ ys) ≡ before_match str arr (some y) ys =
                ground arith in
              let (p, at_p, i) = before_match-mem y ys in
              rw (miss, at_p) (Bypass-tail y e c new d h' (rw later at b))
        ]
