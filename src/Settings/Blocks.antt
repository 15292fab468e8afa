-- ===== src/Settings/Blocks.antt =====
-- The prompt blocks of frontend/components/admin/settings-panel.tsx: joined in the form, they are read
-- back from it.
use gx_notion2api.Prelude.{
  append_assoc, ℕ, suc, ◌≤◌, ◌≡◌, refl, sym, ap, ◌∙◌, Bool, true, false, not, length-append, ◌&&◌,
  List, [], ◌∷◌, ◌++◌, Text, txt, keep, length, All, trim, is_present, includes, starts_with,
  nat_eq, arith,
}
use gx_notion2api.Settings.Prompts.{
  join, new_line, block_mark, on_first, split_blocks, trimmed, parse_prompt_block_list,
}

all_start : (s : Text) → starts_with s [] ≡ true
unfolding starts_with
all_start [] = refl
all_start (c ∷ s) = refl

-- A prefix that is no longer than a text is found in the text alone.
starts_with_cut : (s p x : Text) → length p ≤ length s → starts_with (s ++ x) p ≡ starts_with s p
unfolding starts_with
starts_with_cut s [] x h = all_start (s ++ x) ∙ sym (all_start s)
starts_with_cut [] (c ∷ p) x h = absurd (omega (arith, h))
starts_with_cut (d ∷ s) (c ∷ p) x h =
    ap (λ b. nat_eq d c && b) (starts_with_cut s p x (omega (arith, h)))

-- The mark without the line break at its end
abbrev mark_head : Text
mark_head = new_line ++ txt "---"

-- No line of the block but the first is the mark's.
unfoldable pub is_plain : Text → Bool
unfolding includes starts_with
is_plain block = not (includes (block ++ mark_head) block_mark)

plain_head :
    (c : ℕ) (t : Text)
    → is_plain (c ∷ t) ≡ true
    → (starts_with (c ∷ (t ++ mark_head)) block_mark ≡ false) × (is_plain t ≡ true)
unfolding is_plain includes
plain_head c t h = (ground (arith, h), ground (arith, h))

split_mark : (rest : Text) → split_blocks 0 (block_mark ++ rest) ≡ [] ∷ split_blocks 0 rest
unfolding split_blocks starts_with
split_mark rest = refl

length_plain : (t : Text) → length block_mark ≤ suc (length (t ++ mark_head))
length_plain t = omega (arith, length-append t mark_head)

split_step :
    (c : ℕ) (t : Text)
    → starts_with (c ∷ t) block_mark ≡ false
    → split_blocks 0 (c ∷ t) ≡ on_first c (split_blocks 0 t)
unfolding split_blocks
split_step c t h = rw (h, split_blocks) refl

split-append :
    (t rest : Text)
    → is_plain t ≡ true
    → split_blocks 0 (t ++ (block_mark ++ rest)) ≡ t ∷ split_blocks 0 rest
split-append [] rest h = split_mark rest
split-append (c ∷ t) rest h =
    let (start, tail) = plain_head c t h in
    let same : t ++ (block_mark ++ rest) ≡ (t ++ mark_head) ++ 10 ∷ rest =
      sym (append_assoc t mark_head (10 ∷ rest)) in
    split_step c (t ++ (block_mark ++ rest)) (
      ap (λ u. starts_with (c ∷ u) block_mark) same
      ∙ starts_with_cut (c ∷ (t ++ mark_head)) block_mark (10 ∷ rest) (length_plain t)
      ∙ start)
    ∙ ap (on_first c) (split-append t rest tail)

-- A prefix of a text is one of any longer text.
starts_with-append : (s p x : Text) → starts_with (s ++ x) p ≡ false → starts_with s p ≡ false
unfolding starts_with
starts_with-append s [] x h = ground (arith, h, all_start (s ++ x))
starts_with-append [] (c ∷ p) x h = refl
starts_with-append (d ∷ s) (c ∷ p) x h = ground (arith, h, starts_with-append s p x)

split_last : (t : Text) → is_plain t ≡ true → split_blocks 0 t ≡ t ∷ []
split_last [] h = unfold split_blocks in refl
split_last (c ∷ t) h =
    let (start, tail) = plain_head c t h in
    split_step c t (starts_with-append (c ∷ t) block_mark mark_head start)
    ∙ ap (on_first c) (split_last t tail)

-- A block that the form can hold: trimmed, not empty, and with no line that is the mark's.
abbrev pub IsTidyBlock : Text → Type 0
IsTidyBlock block = (is_plain block ≡ true) × (trim block ≡ block) × (is_present block ≡ true)

split_blocks-join :
    (t : Text) (ts : List Text)
    → All IsTidyBlock (t ∷ ts)
    → split_blocks 0 (join block_mark (t ∷ ts)) ≡ t ∷ ts
unfolding join
split_blocks-join t [] (h, hs) = split_last t h.0
split_blocks-join t (u ∷ ts) (h, hs) =
    split-append t (join block_mark (u ∷ ts)) h.0 ∙ ap (λ r. t ∷ r) (split_blocks-join u ts hs)

pub trimmed_tidy :
    (ts : List Text) → All (λ t. (trim t ≡ t) × (is_present t ≡ true)) ts → trimmed ts ≡ ts
unfolding keep
trimmed_tidy [] h = refl
trimmed_tidy (t ∷ ts) ((e, present), h) = rw (e, present, trimmed_tidy ts h) refl

tidy_parts :
    (ts : List Text) → All IsTidyBlock ts → All (λ t. (trim t ≡ t) × (is_present t ≡ true)) ts
tidy_parts [] h = tt
tidy_parts (t ∷ ts) (h, hs) = ((h.1, h.2), tidy_parts ts hs)

no_blocks : trimmed (split_blocks 0 (join block_mark [])) ≡ []
unfolding split_blocks join trim keep
no_blocks = refl

-- Blocks that are trimmed, not empty and without a line of the mark are read back from their text.
pub parse_prompt_block_list-join :
    (ts : List Text) → All IsTidyBlock ts → parse_prompt_block_list (join block_mark ts) ≡ ts
unfolding parse_prompt_block_list
parse_prompt_block_list-join [] h = no_blocks
parse_prompt_block_list-join (t ∷ ts) h =
    ap trimmed (split_blocks-join t ts h) ∙ trimmed_tidy (t ∷ ts) (tidy_parts (t ∷ ts) h)
