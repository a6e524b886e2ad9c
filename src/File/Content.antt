-- ===== src/File/Content.antt =====
-- What a chain of data buckets holds: the bytes that the file calls read and write.
use spacefish.Prelude.{
  ℕ, ◌≤◌, ◌<◌, ◌≡◌, ◌⊎◌, refl, true, List, [], ◌∷◌, ◌++◌, arith, ◌==◌, has, AllBelow, Bool-cases,
  inl, inr,
}
use spacefish.Config.{dbucket_buf_size, no_ix}
use spacefish.Data.{DataBucket}
use spacefish.Data.Alloc.{tot_buckets}
use spacefish.File.Transfer.{slice}

-- From `ix` the indices `next_ix` lead through the buckets `xs` to the end; every bucket is in use,
-- and all but the last are full.
pub data FileChain (db : ℕ → DataBucket) : ℕ → List ℕ → Type 0 where
  last :
      {ix : ℕ}
      → ix < tot_buckets
      → (db ix).in_use ≡ true
      → (db ix).next_ix ≡ no_ix
      → (db ix).bytes ≤ dbucket_buf_size
      → FileChain db ix (ix ∷ [])
  more :
      {ix next : ℕ} {xs : List ℕ}
      → ix < tot_buckets
      → (db ix).in_use ≡ true
      → (db ix).next_ix ≡ next
      → (db ix).bytes ≡ dbucket_buf_size
      → FileChain db next xs
      → FileChain db ix (ix ∷ xs)

-- The bytes of a bucket, and of a chain.
abbrev pub bytes_of : DataBucket → List ℕ
bytes_of b = slice b.buf 0 b.bytes

unfoldable pub content : (ℕ → DataBucket) → List ℕ → List ℕ
content db [] = []
content db (x ∷ xs) = bytes_of (db x) ++ content db xs

pub FileChain-in_range :
    {db : ℕ → DataBucket} {ix : ℕ} {xs : List ℕ} → FileChain db ix xs → ix < tot_buckets
FileChain-in_range (last h _ _ _) = h
FileChain-in_range (more h _ _ _ _) = h

pub FileChain-AllBelow :
    {db : ℕ → DataBucket} {ix : ℕ} {xs : List ℕ} → FileChain db ix xs → AllBelow tot_buckets xs
FileChain-AllBelow (last h _ _ _) = (h, tt)
FileChain-AllBelow (more h _ _ _ c) = (h, FileChain-AllBelow c)

pub FileChain-in_use :
    {db : ℕ → DataBucket} {ix : ℕ} {xs : List ℕ}
    → FileChain db ix xs
    → (j : ℕ) → has j xs ≡ true
    → (db j).in_use ≡ true
FileChain-in_use {db} {ix} (last h u _ _) j i = let same : ix ≡ j = ground arith in rw (← same) u
FileChain-in_use {db} {ix} {xs = x ∷ xs} (more h u _ _ c) j i = elim (Bool-cases (ix == j)) [
  | inl here ↦ let same : ix ≡ j = ground arith in rw (← same) u
  | inr there ↦ FileChain-in_use c j (ground arith)
]

-- The index where a chain begins, and what follows its first bucket.
abbrev pub Begins : ℕ → List ℕ → Type 0
Begins ix [] = ⊥
Begins ix (x ∷ xs) = ix ≡ x

pub FileChain-Begins :
    {db : ℕ → DataBucket} {ix : ℕ} {xs : List ℕ} → FileChain db ix xs → Begins ix xs
FileChain-Begins (last _ _ _ _) = refl
FileChain-Begins (more _ _ _ _ _) = refl

pub FileChain-cases :
    {db : ℕ → DataBucket} {ix x : ℕ} {xs : List ℕ}
    → FileChain db ix (x ∷ xs)
    → (xs ≡ [])
      ⊎ (((db x).in_use ≡ true)
          × ((db x).bytes ≡ dbucket_buf_size)
          × FileChain db (db x).next_ix xs)
FileChain-cases (last _ _ _ _) = inl refl
FileChain-cases (more _ u n b c) = inr (u, b, rw n c)

module _ {db db' : ℕ → DataBucket} where
  -- A chain and its content depend on the buckets of the chain alone.
  pub FileChain-frame :
      {ix : ℕ} {xs : List ℕ}
      → FileChain db ix xs
      → ((j : ℕ) → has j xs ≡ true → db' j ≡ db j)
      → FileChain db' ix xs
  FileChain-frame {ix} (last h u n b) same =
      let e : db' ix ≡ db ix = same ix (ground arith) in last h (rw e u) (rw e n) (rw e b)
  FileChain-frame {ix} (more h u n b c) same =
      let e : db' ix ≡ db ix = same ix (ground arith) in
      more h (rw e u) (rw e n) (rw e b) (FileChain-frame c (λ j i. same j (ground arith)))

  pub content-frame :
      (xs : List ℕ) → ((j : ℕ) → has j xs ≡ true → db' j ≡ db j) → content db' xs ≡ content db xs
  unfolding content
  content-frame [] same = refl
  content-frame (x ∷ xs) same =
      let e : db' x ≡ db x = same x (ground arith) in
      rw (e, content-frame xs (λ j i. same j (ground arith))) refl
