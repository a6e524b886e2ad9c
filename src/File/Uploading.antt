-- ===== src/File/Uploading.antt =====
-- The data of a file taken in by `upload_file` of system/util/util.c: how its chain grows.
use spacefish.Prelude.{
  ℕ, ◌+◌, ◌≤◌, ◌<◌, ◌≡◌, ◌≢◌, refl, ap, ◌∙◌, true, false, Option, some, List, [], ◌∷◌, ◌++◌, arith,
  ltb, update, has, Distinct, length,
}
use spacefish.Config.{dbucket_buf_size, no_ix}
use spacefish.Run.{ok, died}
use spacefish.Data.{DataMem}
use spacefish.Data.Alloc.{tot_buckets}
use spacefish.Data.Alloc.Search.{taken}
use spacefish.Data.Method.{get_free_dbucket_ix}
use spacefish.File.Host.{World}
use spacefish.File.Transfer.{slice, blit, copy_in}
use spacefish.File.Blit.{slice-blit}
use spacefish.File.Reading.{reach}
use spacefish.File.Content.{FileChain, last, more, bytes_of, content}
use spacefish.File.Ready.{Ready, Ready-update, Gives}
use spacefish.File.Upload.{fill_bucket, new_db, link_db}

-- The bucket `q`, which was free, follows `p`, and holds the bytes `chunk`.
pub record Grew (s u : DataMem) (p q : ℕ) (chunk : List ℕ) : Type 0 where
  pub less : q < tot_buckets
  pub fresh : (s.db q).in_use ≡ false
  pub prev : u.db p ≡ record (s.db p) { next_ix = q }
  pub used : (u.db q).in_use ≡ true
  pub next : (u.db q).next_ix ≡ no_ix
  pub size : (u.db q).bytes ≡ length chunk
  pub holds : bytes_of (u.db q) ≡ chunk
  pub others : (j : ℕ) → j ≢ p → j ≢ q → u.db j ≡ s.db j
  pub ready : Ready u

-- From the bucket `p`, the last of its chain, the chain has grown by `ys`, which hold the bytes; `p`
-- has only got a link, and the other buckets in use are as they were.
pub record Filled (s t : DataMem) (p : ℕ) (bytes : List ℕ) : Type 0 where
  pub ys : List ℕ
  pub chain : FileChain t.db p (p ∷ ys)
  pub distinct : Distinct (p ∷ ys)
  pub holds : content t.db ys ≡ bytes
  pub same : t.db p ≡ record (s.db p) { next_ix = (t.db p).next_ix }
  pub kept : (j : ℕ) → (s.db j).in_use ≡ true → j ≢ p → (t.db j ≡ s.db j) × (has j ys ≡ false)
  pub ready : Ready t

-- The last bucket of a chain.
pub record End (s : DataMem) (p : ℕ) : Type 0 where
  pub less : p < tot_buckets
  pub used : (s.db p).in_use ≡ true
  pub next : (s.db p).next_ix ≡ no_ix
  pub small : (s.db p).bytes ≤ dbucket_buf_size

pub nothing-Filled : {s : DataMem} {p : ℕ} → End s p → Ready s → Filled s s p []
unfolding content
nothing-Filled e r = record {
  ys = [];
  chain = last e.less e.used e.next e.small;
  distinct = (refl, tt);
  holds = refl;
  same = refl;
  kept = λ j i ne. (refl, refl);
  ready = r;
}

-- The bucket that has grown behind `p`, and what has grown behind it.
pub Grew-Filled :
    {s u t : DataMem} {p q : ℕ} {chunk later : List ℕ}
    → End s p
    → (s.db p).bytes ≡ dbucket_buf_size
    → Grew s u p q chunk
    → Filled u t q later
    → Filled s t p (chunk ++ later)
unfolding content
Grew-Filled {s} {u} {t} {p} {q} {chunk} e full g f =
    let ne : p ≢ q = λ same. absurd (ground (arith, e.used, g.fresh)) in
    let (at_p, out) = f.kept p (rw g.prev e.used) ne in
    let mine : t.db p ≡ record (s.db p) { next_ix = q } = at_p ∙ g.prev in
    let held : bytes_of (t.db q) ≡ chunk = ap (λ b. slice b.buf 0 b.bytes) f.same ∙ g.holds in
    record {
      ys = q ∷ f.ys;
      chain = more e.less (rw mine e.used) (rw mine refl) (rw mine full) f.chain;
      distinct = (ground (arith, out), f.distinct);
      holds = rw (held, f.holds) refl;
      same = rw mine refl;
      kept = λ j used other.
          let fresh : j ≢ q = λ same. absurd (ground (arith, used, g.fresh)) in
          let before = g.others j other fresh in
          let (after, outside) = f.kept j (rw before used) fresh in
          (after ∙ before, ground (arith, outside));
      ready = f.ready;
    }

abbrev copied : ℕ → List ℕ → DataMem → DataMem
copied q chunk s = record s {
  db = update s.db q (record (s.db q) { buf = blit (s.db q).buf 0 chunk });
}

abbrev pub filled : ℕ → List ℕ → DataMem → DataMem
filled q chunk s =
    let c = copied q chunk s in
    record c { db = update c.db q (record (c.db q) { bytes = length chunk }) }

pub fill_bucket-filled :
    (q : ℕ) (chunk : List ℕ) (s : DataMem)
    → length chunk ≤ dbucket_buf_size
    → fill_bucket q chunk s ≡ ok tt (filled q chunk s)
unfolding fill_bucket copy_in
fill_bucket-filled q chunk s h =
    let fits : ltb dbucket_buf_size (0 + length chunk) ≡ false = ground arith in rw fits refl

-- What a bucket in use holds once it has been filled.
pub record Holds (s u : DataMem) (q : ℕ) (chunk : List ℕ) : Type 0 where
  pub used : (u.db q).in_use ≡ (s.db q).in_use
  pub next : (u.db q).next_ix ≡ (s.db q).next_ix
  pub size : (u.db q).bytes ≡ length chunk
  pub holds : bytes_of (u.db q) ≡ chunk
  pub others : (j : ℕ) → j ≢ q → u.db j ≡ s.db j

pub filled-Holds : (q : ℕ) (chunk : List ℕ) (s : DataMem) → Holds s (filled q chunk s) q chunk
filled-Holds q chunk s =
    let buf : ((filled q chunk s).db q).buf ≡ blit (s.db q).buf 0 chunk = ground arith in
    let size : ((filled q chunk s).db q).bytes ≡ length chunk = ground arith in
    record {
      used = ground arith;
      next = ground arith;
      size = size;
      holds = rw (buf, size) (slice-blit (s.db q).buf 0 chunk);
      others = λ j ne. ground arith;
    }

pub filled-Ready :
    (q : ℕ) (chunk : List ℕ) (s : DataMem)
    → Ready s
    → (s.db q).in_use ≡ true
    → Ready (filled q chunk s)
filled-Ready q chunk s r used =
    let c = Ready-update q (record (s.db q) { buf = blit (s.db q).buf 0 chunk }) r used in
    Ready-update q (record ((copied q chunk s).db q) { bytes = length chunk }) c (ground arith)

-- The link to a bucket just taken.
abbrev pub linked : (p q : ℕ) → DataMem → DataMem
linked p q t = record t { db = update t.db p (record (t.db p) { next_ix = q }) }

module _ {s t : DataMem} {p q : ℕ} (e : End s p) (ready : Ready s) (g : Gives s (ok q t)) where
  apart : p ≢ q
  apart same = absurd (ground (arith, e.used, g.1))

  linked-Ready : Ready (linked p q t)
  linked-Ready = Ready-update p (record (t.db p) { next_ix = q }) g.3 (ground (arith, g.2, e.used))

  pub grown-Grew : (chunk : List ℕ) → Grew s (filled q chunk (linked p q t)) p q chunk
  grown-Grew chunk =
      let l = linked p q t in
      let h = filled-Holds q chunk l in
      let ne = apart in
      let (next, size) = ready.clean q g.0 g.1 in
      let at_q : l.db q ≡ taken (s.db q) = ground (arith, g.2) in
      let at_p : l.db p ≡ record (s.db p) { next_ix = q } = ground (arith, g.2) in
      record {
        less = g.0;
        fresh = g.1;
        prev = h.others p ne ∙ at_p;
        used = h.used ∙ ap (λ b. b.in_use) at_q;
        next = h.next ∙ ap (λ b. b.next_ix) at_q ∙ next;
        size = h.size;
        holds = h.holds;
        others = λ j a b. h.others j b ∙ ground (arith, g.2);
        ready = filled-Ready q chunk l linked-Ready (rw at_q refl);
      }

  pub new_db-ok :
      {H : Type 0} (ix : ℕ) (w : World H)
      → w.data_mem ≡ s
      → get_free_dbucket_ix s ≡ ok q t
      → new_db ix (some p) w ≡ ok q (record w { data_mem = linked p q t })
  unfolding new_db link_db
  new_db-ok ix w at runs = rw (at, runs, reach linked-Ready.mapped q g.0) refl

pub new_db-died :
    {H : Type 0} (ix : ℕ) (prev : Option ℕ) (w : World H) {t : DataMem}
    → get_free_dbucket_ix w.data_mem ≡ died t
    → new_db ix prev w ≡ died (record w { data_mem = t })
unfolding new_db
new_db-died ix prev w runs = rw runs refl
