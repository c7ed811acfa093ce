-- ===== src/Libc/Laws.antt =====
-- What an overwrite that fits keeps, and what it puts where.
use low_latency_logger.Prelude.{
  ℕ, ◌+◌, ◌-◌, ◌≤◌, ◌<◌, ◌^◌, none, some, leb, ◌==◌, true, false, [], ◌∷◌, ◌++◌, ◌≡◌, sym, ap, ◌∙◌,
  length, take, drop, get_elem?, length-append, length-take, length-drop, take-append_left,
  take-append_right, take-take, drop-append_right, drop-drop, get_elem?-append_right,
  get_elem?-append_left, arith,
}
use low_latency_logger.Prelude.Text.{Text}
use low_latency_logger.Libc.{overwrite, snprintf}

module _ (pos : ℕ) (bytes buffer : Text) (fits : pos + length bytes ≤ length buffer) where
  length_head : length (take pos buffer) ≡ pos
  length_head = omega (arith, length-take {0} pos buffer)

  pub length-overwrite : length (overwrite pos bytes buffer) ≡ length buffer
  unfolding overwrite
  length-overwrite = omega (
    arith,
    length_head,
    length-append {0} (take pos buffer) (bytes ++ drop (pos + length bytes) buffer),
    length-append {0} bytes (drop (pos + length bytes) buffer),
    length-drop {0} (pos + length bytes) buffer,
  )

  -- The bytes before the write are kept.
  pub take-overwrite : (n : ℕ) → n ≤ pos → take n (overwrite pos bytes buffer) ≡ take n buffer
  unfolding overwrite
  take-overwrite n h =
      take-append_left n (take pos buffer) (bytes ++ drop (pos + length bytes) buffer)
        (omega (arith, length_head))
      ∙ take-take n pos buffer h

  -- The write stands after them.
  pub take-overwrite_end :
      (n : ℕ)
      → n ≤ length bytes
      → take (pos + n) (overwrite pos bytes buffer) ≡ take pos buffer ++ take n bytes
  unfolding overwrite
  take-overwrite_end n h =
      ap (λ k. take (k + n) (take pos buffer ++ (bytes ++ drop (pos + length bytes) buffer)))
        (sym length_head)
      ∙ take-append_right n (take pos buffer) (bytes ++ drop (pos + length bytes) buffer)
      ∙ ap (λ t. take pos buffer ++ t)
          (take-append_left n bytes (drop (pos + length bytes) buffer) h)

  -- The bytes behind the write are kept.
  pub drop-overwrite :
      (n : ℕ) → pos + length bytes ≤ n → drop n (overwrite pos bytes buffer) ≡ drop n buffer
  unfolding overwrite
  drop-overwrite n h =
      let m = n - (pos + length bytes) in
      let past_head : n ≡ length (take pos buffer) + (length bytes + m) =
        omega (arith, length_head) in
      let past_both : pos + length bytes + m ≡ n = omega arith in
      ap (λ k. drop k (take pos buffer ++ (bytes ++ drop (pos + length bytes) buffer))) past_head
      ∙ drop-append_right (take pos buffer) (bytes ++ drop (pos + length bytes) buffer)
          (length bytes + m)
      ∙ drop-append_right bytes (drop (pos + length bytes) buffer) m
      ∙ drop-drop m (pos + length bytes) buffer
      ∙ ap (λ k. drop k buffer) past_both

  pub get_elem?-overwrite :
      (i : ℕ)
      → i < length bytes
      → get_elem? (overwrite pos bytes buffer) (pos + i) ≡ get_elem? bytes i
  unfolding overwrite
  get_elem?-overwrite i h =
      ap (λ k. get_elem? (take pos buffer ++ (bytes ++ drop (pos + length bytes) buffer)) (k + i))
        (sym length_head)
      ∙ get_elem?-append_right (take pos buffer) (bytes ++ drop (pos + length bytes) buffer) i
      ∙ get_elem?-append_left bytes (drop (pos + length bytes) buffer) i h

-- A text whose length is no `int` is an error; any other is written as far as it fits.
pub snprintf-error :
    (buffer : Text) (pos size : ℕ) (t : Text)
    → 2 ^ 31 ≤ length t
    → snprintf buffer pos size (some t) ≡ (none, buffer)
unfolding snprintf
snprintf-error buffer pos size t h =
    let long : leb (2 ^ 31) (length t) ≡ true = ground arith in rw long

pub snprintf-text :
    (buffer : Text) (pos size : ℕ) (t : Text)
    → length t < 2 ^ 31
    → 0 < size
    → snprintf buffer pos size (some t)
      ≡ (some (length t), overwrite pos (take (size - 1) t ++ 0 ∷ []) buffer)
unfolding snprintf
snprintf-text buffer pos size t h room =
    let short : leb (2 ^ 31) (length t) ≡ false = ground arith in
    let some_room : (size == 0) ≡ false = ground arith in rw (short, some_room)
