-- ===== src/ReviewHarness/Catalogue/Trace.antt =====
-- The writes of `RunCatalog` of runcat.py, one after another, and what they keep.
use semantics_toolchain.Prelude.{
  ℕ, String, true, false, List, ◌≡◌, refl, subst, arith, Bool-cases, inl, inr, Result, ok, err,
}
use semantics_toolchain.ReviewHarness.Catalogue.Files.{
  Directory, Name, HarnessError, pass, pass_meta, round, same_name, same_part, exists, read_text,
}
use semantics_toolchain.ReviewHarness.Catalogue.Replacing.{
  same_numbers_refl, same_name-eq, exists-put_file, put_file-new, read_text-put_file,
  read_text-exists, exists-written,
}
use semantics_toolchain.ReviewHarness.Catalogue.Writing.{
  replaced, Disk, Attempt, put_file, next, checked, unwritten, unflushed, flushed,
}

-- A file that may be written: a pass only where there is none and its metadata is there.
abbrev pub Allowed : Name → Directory → Type 0
Allowed (round pass digits) d =
    (exists (round pass digits) d ≡ false) × (exists (round pass_meta digits) d ≡ true)
Allowed _ d = Unit

-- The writes that lead from one directory to another.
pub data WritesTo : Directory → Directory → Type 0 where
  nothing : {d : Directory} → WritesTo d d
  write :
      {d e : Directory} (name : Name) (text : String)
      → Allowed name d
      → WritesTo (put_file name text d) e
      → WritesTo d e

pub WritesTo-trans : {d e f : Directory} → WritesTo d e → WritesTo e f → WritesTo d f
WritesTo-trans nothing w = w
WritesTo-trans (write name text allowed first) w = write name text allowed (WritesTo-trans first w)

-- The writes keep every pass as it was received.
pub WritesTo-kept :
    {d e : Directory} (digits : List ℕ) {text : String}
    → WritesTo d e
    → read_text (round pass digits) d ≡ ok text
    → read_text (round pass digits) e ≡ ok text
WritesTo-kept digits nothing h = h
WritesTo-kept {d} digits {text} (write name new allowed rest) h =
    elim (Bool-cases (same_name name (round pass digits))) [
      | inl same ↦
          let free =
            (subst (λ n. Allowed n d) (same_name-eq name (round pass digits) same) allowed).0 in
          let there = read_text-exists (round pass digits) d h in
          absurd (ground (arith, free, there))
      | inr apart ↦
          WritesTo-kept digits rest (read_text-put_file name (round pass digits) new d apart h)
    ]

-- Every pass has its metadata.
abbrev pub HasMeta : Directory → Type 0
HasMeta d =
    (digits : List ℕ)
    → exists (round pass digits) d ≡ true
    → exists (round pass_meta digits) d ≡ true

pub put_file-HasMeta :
    (name : Name) (text : String) (d : Directory)
    → Allowed name d
    → HasMeta d
    → HasMeta (put_file name text d)
put_file-HasMeta name text d allowed has digits here =
    exists-put_file name (round pass_meta digits) text d
      (elim (Bool-cases (same_name name (round pass digits))) [
        | inl same ↦
            (subst (λ n. Allowed n d) (same_name-eq name (round pass digits) same) allowed).1
        | inr apart ↦
            has digits (ground (arith, apart, put_file-new name (round pass digits) text d here))
      ])

pub WritesTo-HasMeta : {d e : Directory} → WritesTo d e → HasMeta d → HasMeta e
WritesTo-HasMeta nothing has = has
WritesTo-HasMeta {d} (write name text allowed rest) has =
    WritesTo-HasMeta rest (put_file-HasMeta name text d allowed has)

pub checked-WritesTo :
    {A : Type 0} (r : Result HarnessError A) (d : Directory) (f : A → Attempt)
    → ((a : A) → r ≡ ok a → WritesTo d (f a).1)
    → WritesTo d (checked r d f).1
unfolding checked
checked-WritesTo (ok a) d f w = w a refl
checked-WritesTo (err e) d f w = nothing

pub next-WritesTo :
    {d : Directory} (s : Attempt) (f : Directory → Attempt)
    → WritesTo d s.1
    → (s.0 ≡ ok tt → WritesTo s.1 (f s.1).1)
    → WritesTo d (next s f).1
unfolding next
next-WritesTo (ok u, e) f w v = WritesTo-trans w (v refl)
next-WritesTo (err r, e) f w v = w

pub replaced-WritesTo :
    (k : Disk) (name : Name) (text : String) (d : Directory)
    → Allowed name d
    → WritesTo d (replaced k name text d).1
replaced-WritesTo unwritten name text d allowed = nothing
replaced-WritesTo unflushed name text d allowed = write name text allowed nothing
replaced-WritesTo flushed name text d allowed = write name text allowed nothing

pub checked-flushed :
    (r : Result HarnessError Unit) (k : Disk) (name : Name) (text : String) (d : Directory)
    → (checked r d (λ u. replaced k name text d)).0 ≡ ok tt
    → (checked r d (λ u. replaced k name text d)).1 ≡ put_file name text d
unfolding checked
checked-flushed (err e) k name text d h = absurd cc
checked-flushed (ok u) unwritten name text d h = absurd cc
checked-flushed (ok u) unflushed name text d h = absurd cc
checked-flushed (ok u) flushed name text d h = refl

pub pass_apart : (digits : List ℕ) → same_name (round pass_meta digits) (round pass digits) ≡ false
unfolding same_name same_part
pass_apart digits = refl

pub meta_same :
    (digits : List ℕ) → same_name (round pass_meta digits) (round pass_meta digits) ≡ true
unfolding same_name same_part
meta_same digits = same_numbers_refl digits

-- After the metadata of a round is written, its pass may be.
pub meta_first :
    (digits : List ℕ) (text : String) (d : Directory)
    → exists (round pass digits) d ≡ false
    → Allowed (round pass digits) (put_file (round pass_meta digits) text d)
meta_first digits text d free = (
  ground (
    arith,
    free,
    pass_apart digits,
    put_file-new (round pass_meta digits) (round pass digits) text d,
  ),
  exists-written (round pass_meta digits) text d (meta_same digits),
)
