-- ===== src/Networking/Hosts/Section.antt =====
-- The section of /etc/hosts is replaced as a whole, and nothing else of the file is.
use mathlib.Core.List.{append_assoc, append-nil, reverse, reverse-append, reverse-reverse}
use pymesh.Base.{
  ℕ, zero, suc, ◌+◌, ◌≡◌, refl, ◌∙◌, ap, sym, Bool, true, false, some, List, [], ◌∷◌, ◌++◌, nat_eq,
  length, drop, drop-append, length-append, contains, arith, Bool-cases, inl, inr,
}
use pymesh.Base.Text.{
  Text, starts_with, has_part, starts_with-append, join, rstrip_by, lstrip_by, is_space,
}
use pymesh.Networking.Hosts.{
  section_start, section_end, newline, section_of, after_mark, skip_newline, replace_sections,
  substitute, has_section, stripped,
}

-- A mark without a line break is found in a text behind which a line breaks only in that text.
starts_with-newline :
    (u t p : Text) → contains newline p ≡ false → starts_with (u ++ newline ∷ t) p ≡ starts_with u p
unfolding starts_with contains
starts_with-newline u t [] h = ground arith
starts_with-newline [] t (b ∷ p) h = ground arith
starts_with-newline (a ∷ u) t (b ∷ p) h = ground (arith, starts_with-newline u t p)

starts_with-prefix : (u t p : Text) → starts_with (u ++ t) p ≡ false → starts_with u p ≡ false
unfolding starts_with
starts_with-prefix u t [] h = ground arith
starts_with-prefix [] t (b ∷ p) h = refl
starts_with-prefix (a ∷ u) t (b ∷ p) h = ground (arith, starts_with-prefix u t p)

has_part-prefix : (p u t : Text) → has_part p (u ++ t) ≡ false → has_part p u ≡ false
unfolding has_part
has_part-prefix p [] [] h = h
has_part-prefix p [] (c ∷ t) h = starts_with-prefix [] (c ∷ t) p (ground arith)
has_part-prefix p (a ∷ u) t h =
    ground (arith, has_part-prefix p u t, starts_with-prefix (a ∷ u) t p)

has_part-append : (p u t : Text) → has_part p t ≡ true → has_part p (u ++ t) ≡ true
unfolding has_part
has_part-append p [] t h = h
has_part-append p (a ∷ u) t h = ground (arith, has_part-append p u t)

has_part_self : (p t : Text) → has_part p (p ++ t) ≡ true
unfolding has_part starts_with
has_part_self [] [] = refl
has_part_self [] (c ∷ t) = refl
has_part_self (a ∷ p) t = ground (arith, starts_with-append (a ∷ p) t)

starts_with-break :
    (c : ℕ) (p t : Text)
    → contains newline (c ∷ p) ≡ false
    → starts_with (newline ∷ t) (c ∷ p) ≡ false
unfolding starts_with
starts_with-break c p t plain = starts_with-newline [] t (c ∷ p) plain

has_part-head : (p s : Text) (a : ℕ) → has_part p (a ∷ s) ≡ false → starts_with (a ∷ s) p ≡ false
unfolding has_part
has_part-head p s a h = ground arith

has_part-tail : (p s : Text) (a : ℕ) → has_part p (a ∷ s) ≡ false → has_part p s ≡ false
unfolding has_part
has_part-tail p s a h = ground arith

-- no place of a text without the mark begins it, whatever follows the next line break
starts_with-quiet :
    (c a : ℕ) (p body t : Text)
    → contains newline (c ∷ p) ≡ false
    → has_part (c ∷ p) (a ∷ body) ≡ false
    → starts_with (a ∷ (body ++ newline ∷ t)) (c ∷ p) ≡ false
starts_with-quiet c a p body t plain h =
    starts_with-newline (a ∷ body) t (c ∷ p) plain ∙ has_part-head (c ∷ p) body a h

after_mark-skip :
    (mark s : Text) (a : ℕ)
    → starts_with (a ∷ s) mark ≡ false
    → after_mark mark (a ∷ s) ≡ after_mark mark s
unfolding after_mark
after_mark-skip mark s a h = rw (h, after_mark) refl

after_mark_self : (c : ℕ) (p rest : Text) → after_mark (c ∷ p) (c ∷ (p ++ rest)) ≡ some rest
unfolding after_mark
after_mark_self c p rest =
    let here : starts_with (c ∷ (p ++ rest)) (c ∷ p) ≡ true = starts_with-append (c ∷ p) rest in
    rw (here, after_mark) (ap some (drop-append p rest))

-- a mark without a line break is found behind a body that does not hold it and ends a line
after_mark-found :
    (c : ℕ) (p body rest : Text)
    → contains newline (c ∷ p) ≡ false
    → has_part (c ∷ p) body ≡ false
    → after_mark (c ∷ p) (body ++ newline ∷ c ∷ (p ++ rest)) ≡ some rest
after_mark-found c p [] rest plain h =
    after_mark-skip (c ∷ p) (c ∷ (p ++ rest)) newline (starts_with-break c p _ plain)
    ∙ after_mark_self c p rest
after_mark-found c p (a ∷ body) rest plain h =
    after_mark-skip (c ∷ p) (body ++ newline ∷ c ∷ (p ++ rest)) a
      (starts_with-quiet c a p body _ plain h)
    ∙ after_mark-found c p body rest plain (has_part-tail (c ∷ p) body a h)

module _ (c : ℕ) (p : Text) (d : ℕ) (q : Text) (plain : contains newline (c ∷ p) ≡ false)
    (plain_end : contains newline (d ∷ q) ≡ false) (block : Text) where
  abbrev replaced : ℕ → Text → Text
  replaced fuel s = replace_sections (c ∷ p) (d ∷ q) fuel block s

  replaced-skip :
      (fuel a : ℕ) (s : Text)
      → starts_with (a ∷ s) (c ∷ p) ≡ false
      → replaced (suc fuel) (a ∷ s) ≡ a ∷ replaced fuel s
  unfolding replace_sections
  replaced-skip fuel a s h = rw (h, replace_sections) refl

  -- the scan passes over a text without a section
  replaced-quiet :
      (pre t : Text) (fuel : ℕ)
      → has_part (c ∷ p) pre ≡ false
      → replaced (length pre + fuel) (pre ++ newline ∷ t) ≡ pre ++ replaced fuel (newline ∷ t)
  replaced-quiet [] t fuel h = ap (λ n. replaced n (newline ∷ t)) (omega arith)
  replaced-quiet (a ∷ pre) t fuel h =
      let e : length (a ∷ pre) + fuel ≡ suc (length pre + fuel) = omega arith in
      rw e (
        replaced-skip (length pre + fuel) a (pre ++ newline ∷ t)
          (starts_with-quiet c a p pre t plain h)
        ∙ ap (λ l. a ∷ l) (replaced-quiet pre t fuel (has_part-tail (c ∷ p) pre a h)))

  replaced-section :
      (body rest : Text) (fuel : ℕ)
      → has_part (d ∷ q) body ≡ false
      → replaced (suc fuel) (c ∷ (p ++ (body ++ newline ∷ d ∷ (q ++ rest))))
        ≡ block ++ replaced fuel (skip_newline rest)
  unfolding replace_sections
  replaced-section body rest fuel h =
      let whole : Text = body ++ newline ∷ d ∷ (q ++ rest) in
      let here : starts_with (c ∷ (p ++ whole)) (c ∷ p) ≡ true = starts_with-append (c ∷ p) whole in
      let behind : after_mark (d ∷ q) (drop (length p) (p ++ whole)) ≡ some rest =
        rw (drop-append p whole) (after_mark-found d q body rest plain_end h) in
      rw (here, replace_sections) (rw (behind, replace_sections) refl)

  replaced-nil : (fuel : ℕ) → replaced fuel [] ≡ []
  unfolding replace_sections
  replaced-nil zero = refl
  replaced-nil (suc fuel) = refl

  -- a section behind an empty line, at the end of a file
  replaced-at_end :
      (pre body : Text) (fuel : ℕ)
      → has_part (c ∷ p) pre ≡ false
      → has_part (d ∷ q) body ≡ false
      → replaced
          (length pre + suc (suc (suc fuel)))
          (pre ++ newline ∷ newline ∷ c ∷ (p ++ (body ++ newline ∷ d ∷ (q ++ newline ∷ []))))
        ≡ pre ++ newline ∷ newline ∷ block
  replaced-at_end pre body fuel quiet quiet_end =
      replaced-quiet pre _ (suc (suc (suc fuel))) quiet
      ∙ ap (λ l. pre ++ l)
          (replaced-skip _ newline _ (starts_with-break c p _ plain)
            ∙ ap (λ l. newline ∷ l)
                (replaced-skip _ newline _ (starts_with-break c p _ plain)
                  ∙ ap (λ l. newline ∷ l)
                      (replaced-section body (newline ∷ []) fuel quiet_end
                        ∙ ap (λ l. block ++ l) (replaced-nil fuel)
                        ∙ append-nil block)))

-- the lines of a section, each behind a line break
unfoldable pub body_of : List Text → Text
body_of [] = []
body_of (line ∷ lines) = newline ∷ (line ++ body_of lines)

join-lines :
    (x e : Text) (lines : List Text)
    → join (newline ∷ []) (x ∷ (lines ++ e ∷ [])) ≡ x ++ (body_of lines ++ newline ∷ e)
unfolding join body_of
join-lines x e [] = append_assoc x (newline ∷ []) e
join-lines x e (line ∷ lines) =
    append_assoc x (newline ∷ []) _
    ∙ ap (λ l. x ++ newline ∷ l)
        (join-lines line e lines ∙ sym (append_assoc line (body_of lines) (newline ∷ e)))

section_of-body :
    (lines : List Text)
    → section_of lines ≡ section_start ++ (body_of lines ++ newline ∷ (section_end ++ newline ∷ []))
unfolding section_of
section_of-body lines =
    ap (λ l. l ++ newline ∷ []) (join-lines section_start section_end lines)
    ∙ append_assoc section_start _ (newline ∷ [])
    ∙ ap (λ l. section_start ++ l)
        (append_assoc (body_of lines) (newline ∷ section_end) (newline ∷ []))

start_plain : contains newline section_start ≡ false
unfolding contains
start_plain = refl

stop_plain : contains newline section_end ≡ false
unfolding contains
stop_plain = refl

-- what is put in the place of the section at the end of a file
pub substitute-section :
    (pre block : Text) (lines : List Text)
    → has_part section_start pre ≡ false
    → has_part section_end (body_of lines) ≡ false
    → substitute block (pre ++ newline ∷ newline ∷ section_of lines)
      ≡ pre ++ newline ∷ newline ∷ block
unfolding substitute
substitute-section pre block lines quiet quiet_end =
    let size = length-append pre (
      newline ∷ newline ∷ section_start
      ++ (body_of lines ++ newline ∷ (section_end ++ newline ∷ []))) in
    rw (section_of-body lines) (
      rw size (
        replaced-at_end _ _ _ _ start_plain stop_plain block pre (body_of lines) _ quiet quiet_end))

has_part-section :
    (lines : List Text)
    → (has_part section_start (section_of lines) ≡ true)
      × (has_part section_end (section_of lines) ≡ true)
has_part-section lines = (
  rw (section_of-body lines)
      (has_part_self section_start (body_of lines ++ newline ∷ (section_end ++ newline ∷ []))),
  rw (section_of-body lines) (
      has_part-append section_end section_start _ (
        has_part-append section_end (body_of lines) _ (
          has_part-append section_end (newline ∷ []) _
            (has_part_self section_end (newline ∷ []))))),
)

pub has_section-section :
    (pre : Text) (lines : List Text)
    → has_section (pre ++ newline ∷ newline ∷ section_of lines) ≡ true
has_section-section pre lines =
    let (start, stop) = has_part-section lines in
    let behind = λ (p : Text) (h : has_part p (section_of lines) ≡ true).
      has_part-append p pre _ (has_part-append p (newline ∷ newline ∷ []) _ h) in
    rw (behind section_start start, behind section_end stop) refl

lstrip_by-suffix : (test : ℕ → Bool) (s : Text) → (w : Text) × (s ≡ w ++ lstrip_by test s)
unfolding lstrip_by
lstrip_by-suffix test [] = ([], refl)
lstrip_by-suffix test (a ∷ s) = elim (Bool-cases (test a)) [
  | inl e ↦ let (w, h) = lstrip_by-suffix test s in (a ∷ w, rw e (ap (λ l. a ∷ l) h))
  | inr e ↦ ([], rw e refl)
]

stripped-prefix : (s : Text) → (w : Text) × (s ≡ stripped s ++ w)
unfolding rstrip_by
stripped-prefix s =
    let (w, h) = lstrip_by-suffix is_space (reverse s) in
    (reverse w, sym (reverse-reverse s) ∙ ap reverse h ∙ reverse-append w _)

pub stripped-quiet : (p s : Text) → has_part p s ≡ false → has_part p (stripped s) ≡ false
stripped-quiet p s h =
    let (w, e) = stripped-prefix s in has_part-prefix p (stripped s) w (rw e at h)
