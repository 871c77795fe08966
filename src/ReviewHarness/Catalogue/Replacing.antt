-- ===== src/ReviewHarness/Catalogue/Replacing.antt =====
-- Lemmas on file names and on a file that is replaced.
use semantics_toolchain.Prelude.{
  ℕ, String, true, false, ◌||◌, List, [], ◌∷◌, eq_iff, and_true, ◌≡◌, refl, ap, ap₂, ◌∙◌, arith,
  Bool-cases, inl, inr, ok,
}
use semantics_toolchain.ReviewHarness.Catalogue.Files.{
  Directory, Name, Part, pass, pass_meta, outcomes, description, launch_note, meta, gates, round,
  same_name, same_numbers, same_part, exists, read_text, gate_requests, gate_answers, other,
}
use semantics_toolchain.ReviewHarness.Catalogue.Ranges.{same_numbers-eq}
use semantics_toolchain.ReviewHarness.Catalogue.Writing.{put_file}

pub same_part-eq : (p q : Part) → same_part p q ≡ true → p ≡ q
unfolding same_part
same_part-eq pass pass h = refl
same_part-eq pass_meta pass_meta h = refl
same_part-eq outcomes outcomes h = refl
same_part-eq gate_requests gate_requests h = refl
same_part-eq gate_answers gate_answers h = refl
same_part-eq p q h = absurd cc

pub same_numbers_refl : (xs : List ℕ) → same_numbers xs xs ≡ true
unfolding same_numbers
same_numbers_refl [] = refl
same_numbers_refl (x ∷ xs) = ground (arith, same_numbers_refl xs)

pub exists-put_file :
    (name n : Name) (text : String) (d : Directory)
    → exists n d ≡ true
    → exists n (put_file name text d) ≡ true
unfolding exists put_file
exists-put_file name n text [] h = absurd cc
exists-put_file name n text ((m, old) ∷ files) h = ground (arith, exists-put_file name n text files)

-- Whatever is there after a write was there before, or is the file that was written.
pub put_file-new :
    (name n : Name) (text : String) (d : Directory)
    → exists n (put_file name text d) ≡ true
    → (same_name name n || exists n d) ≡ true
unfolding exists put_file
put_file-new name n text [] h = ground arith
put_file-new name n text ((m, old) ∷ files) h = ground (arith, put_file-new name n text files)

pub same_name-eq : (a b : Name) → same_name a b ≡ true → a ≡ b
unfolding same_name
same_name-eq description description h = refl
same_name-eq launch_note launch_note h = refl
same_name-eq meta meta h = refl
same_name-eq gates gates h = refl
same_name-eq (round p s) (round q t) h =
    let (part, digits) = and_true (same_part p q) (same_numbers s t) h in
    ap₂ round (same_part-eq p q part) (same_numbers-eq s t digits)
same_name-eq (other s) (other t) h = ap other ((eq_iff s t).0 h)
same_name-eq a b h = absurd cc

-- A file that was there and was not written anew reads the same.
pub read_text-put_file :
    (name n : Name) (text : String) (d : Directory) {kept : String}
    → same_name name n ≡ false
    → read_text n d ≡ ok kept
    → read_text n (put_file name text d) ≡ ok kept
unfolding read_text put_file
read_text-put_file name n text [] apart h = absurd cc
read_text-put_file name n text ((m, old) ∷ files) {kept} apart h =
    let shadow : same_name m name ≡ true → same_name m n ≡ false =
      λ same. ap (λ x. same_name x n) (same_name-eq m name same) ∙ apart in
    let rest : read_text n files ≡ ok kept → read_text n (put_file name text files) ≡ ok kept =
      read_text-put_file name n text files apart in
    elim (Bool-cases (same_name m n)) [
      | inl here ↦ ground (arith, shadow, h, here)
      | inr away ↦ ground (arith, rest, h, away)
    ]

pub read_text-exists :
    (n : Name) (d : Directory) {text : String} → read_text n d ≡ ok text → exists n d ≡ true
unfolding read_text exists
read_text-exists n [] h = absurd cc
read_text-exists n ((m, old) ∷ files) {text} h =
    let rest : read_text n files ≡ ok text → exists n files ≡ true = read_text-exists n files in
    ground (arith, rest, h)

pub exists-written :
    (name : Name) (text : String) (d : Directory)
    → same_name name name ≡ true
    → exists name (put_file name text d) ≡ true
unfolding exists put_file
exists-written name text [] h = ground (arith, h)
exists-written name text ((m, old) ∷ files) h = ground (arith, h, exists-written name text files h)
