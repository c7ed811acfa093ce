-- ===== src/Formatter/Extends.antt =====
-- Every step of `FormatRecord` writes as much of its piece as fits before the last byte of the
-- buffer, and moves the position by that much.
use low_latency_logger.Prelude.{
  ℕ, ◌+◌, ◌-◌, ◌^◌, ◌≤◌, ◌<◌, min, false, ◌&&◌, some, [], ◌∷◌, ◌++◌, ◌≡◌, refl, sym, ap, ◌∙◌,
  length, take, drop, length-take, length-append, take-take, take-take-min, take-min-length,
  take_all, take-append, take-append_left, append_assoc, leb, ltb, if◌then◌else◌, arith, Bool-cases,
  inl, inr, append-nil,
}
use low_latency_logger.Prelude.Text.{Text}
use low_latency_logger.Libc.{overwrite, terminate}
use low_latency_logger.Libc.Laws.{
  length-overwrite, take-overwrite, take-overwrite_end, drop-overwrite, snprintf-text,
}
use low_latency_logger.Record.{LogRecord}
use low_latency_logger.Record.Message.{message_text}
use low_latency_logger.Formatter.{Cursor, appendf, advance, put_byte, put_message}

pub record Extends (capacity : ℕ) (piece : Text) (o o' : Cursor) : Type 0 where
  pub moved : o'.pos ≡ o.pos + min (capacity - 1 - o.pos) (length piece)
  pub content : take o'.pos o'.buffer ≡ take o.pos o.buffer ++ take (capacity - 1 - o.pos) piece
  pub size : length o'.buffer ≡ length o.buffer
  pub rest : drop capacity o'.buffer ≡ drop capacity o.buffer

-- The position leaves room for the terminator, and the buffer has the capacity that is claimed.
pub record InBounds (capacity : ℕ) (o : Cursor) : Type 0 where
  pub at_most : o.pos ≤ capacity - 1
  pub some_room : 0 < capacity
  pub holds : capacity ≤ length o.buffer

pub Extends-InBounds :
    {capacity : ℕ} {piece : Text} {o o' : Cursor}
    → Extends capacity piece o o'
    → InBounds capacity o
    → InBounds capacity o'
Extends-InBounds e b = omega (arith, e.moved, e.size)

pub Extends-nil : (capacity : ℕ) (o : Cursor) → Extends capacity [] o o
Extends-nil capacity o = record {
  moved = omega arith;
  content = sym (
      ap (λ t. take o.pos o.buffer ++ t) (take_all (capacity - 1 - o.pos) [] (omega arith))
      ∙ append-nil (take o.pos o.buffer));
  size = refl;
  rest = refl;
}

-- Two steps one after the other write the two pieces one after the other.
pub Extends-append :
    {capacity : ℕ} {p q : Text} {o o' o'' : Cursor}
    → Extends capacity p o o'
    → Extends capacity q o' o''
    → Extends capacity (p ++ q) o o''
Extends-append {capacity} {p} {q} {o} {o'} e f = record {
  moved = omega (arith, e.moved, f.moved, length-append {0} p q);
  content =
      f.content
      ∙ ap (λ t. t ++ take (capacity - 1 - o'.pos) q) e.content
      ∙ append_assoc (take o.pos o.buffer) (take (capacity - 1 - o.pos) p)
          (take (capacity - 1 - o'.pos) q)
      ∙ ap (λ t. take o.pos o.buffer ++ t)
          (ap (λ k. take (capacity - 1 - o.pos) p ++ take k q) left
            ∙ sym (take-append (capacity - 1 - o.pos) p q));
  size = f.size ∙ e.size;
  rest = f.rest ∙ e.rest;
}
  where
    left : capacity - 1 - o'.pos ≡ capacity - 1 - o.pos - length p
    left = omega (arith, e.moved)

-- Where nothing of the piece fits, nothing is written.
full-Extends :
    (capacity : ℕ) (piece : Text) (o : Cursor)
    → capacity - 1 - o.pos ≡ 0
    → Extends capacity piece o o
full-Extends capacity piece o e = record {
  moved = omega arith;
  content =
      sym (ap (λ k. take o.pos o.buffer ++ take k piece) e ∙ append-nil (take o.pos o.buffer));
  size = refl;
  rest = refl;
}

-- The terminator in the last byte is not part of what was printed.
terminate-Extends :
    {capacity : ℕ} {piece : Text} {o o' : Cursor}
    → InBounds capacity o
    → o'.pos ≡ capacity - 1
    → Extends capacity piece o o'
    → Extends capacity piece o
        (record { pos = capacity - 1; buffer = terminate (capacity - 1) o'.buffer })
terminate-Extends {capacity} {o = o} {o' = o'} b last e =
    let fits : capacity - 1 + 1 ≤ length o'.buffer = omega (arith, b.some_room, b.holds, e.size) in
    record {
      moved = omega (arith, e.moved);
      content =
          take-overwrite (capacity - 1) (0 ∷ []) o'.buffer fits (capacity - 1) (omega arith)
          ∙ ap (λ k. take k o'.buffer) (sym last)
          ∙ e.content;
      size = length-overwrite (capacity - 1) (0 ∷ []) o'.buffer fits ∙ e.size;
      rest =
          drop-overwrite (capacity - 1) (0 ∷ []) o'.buffer fits capacity
            (omega (arith, b.some_room))
          ∙ e.rest;
    }

-- Writing bytes that fit at the position.
module _ (capacity : ℕ) (o : Cursor) (b : InBounds capacity o) where
  write-Extends :
      (piece bytes : Text) (n : ℕ)
      → n ≡ min (capacity - 1 - o.pos) (length piece)
      → n ≤ length bytes
      → o.pos + length bytes ≤ capacity
      → take n bytes ≡ take (capacity - 1 - o.pos) piece
      → Extends capacity piece o
          (record { pos = o.pos + n; buffer = overwrite o.pos bytes o.buffer })
  write-Extends piece bytes n en le fits same = record {
    moved = ap (λ k. o.pos + k) en;
    content =
        take-overwrite_end o.pos bytes o.buffer (omega (arith, b.holds)) n le
        ∙ ap (λ t. take o.pos o.buffer ++ t) same;
    size = length-overwrite o.pos bytes o.buffer (omega (arith, b.holds));
    rest = drop-overwrite o.pos bytes o.buffer (omega (arith, b.holds)) capacity fits;
  }

  pub put_byte-Extends : (c : ℕ) → Extends capacity (c ∷ []) o (put_byte capacity c o)
  unfolding put_byte
  put_byte-Extends c = elim (Bool-cases (ltb o.pos (capacity - 1))) [
    | inl fits ↦ rw fits (
        write-Extends (c ∷ []) (c ∷ []) 1 (ground arith) (omega arith) (ground arith)
          (sym (take_all (capacity - 1 - o.pos) (c ∷ []) (ground arith))))
    | inr full ↦ rw full (full-Extends capacity (c ∷ []) o (ground arith))
  ]

  pub put_message-Extends :
      (r : LogRecord)
      → r.message_length ≤ length r.message
      → Extends capacity (message_text r) o (put_message capacity r o)
  unfolding put_message
  put_message-Extends r h = elim (Bool-cases (ltb 0 r.message_length && ltb o.pos (capacity - 1))) [
    | inl fits ↦ rw fits (
        write-Extends (message_text r) bytes n as_min (omega (arith, counted))
          (omega (arith, counted, as_min, b.at_most, b.some_room)) whole)
    | inr none_fit ↦ rw none_fit (elim (Bool-cases (ltb 0 r.message_length)) [
      | inl some_text ↦ full-Extends capacity (message_text r) o (ground arith)
      | inr no_text ↦
          let no_length : r.message_length ≡ 0 = ground arith in
          let nothing : message_text r ≡ [] = ap (λ k. take k r.message) no_length in
          rw nothing (Extends-nil capacity o)
    ])
  ]
    where
      n : ℕ
      n =
          if ltb (capacity - 1 - o.pos) r.message_length
          then capacity - 1 - o.pos
          else r.message_length

      bytes : Text
      bytes = take n r.message

      text_length : length (message_text r) ≡ r.message_length
      text_length = omega (arith, length-take {0} r.message_length r.message)

      as_min : n ≡ min (capacity - 1 - o.pos) (length (message_text r))
      as_min = ground (arith, text_length)

      counted : length bytes ≡ n
      counted = omega (arith, length-take {0} n r.message, as_min, text_length)

      whole : take n bytes ≡ take (capacity - 1 - o.pos) (message_text r)
      whole =
          take-take n n r.message (omega arith)
          ∙ ap (λ k. take k r.message) (as_min ∙ ap (min (capacity - 1 - o.pos)) text_length)
          ∙ sym (take-take-min (capacity - 1 - o.pos) r.message_length r.message)

  abbrev written : Text → Text
  written t = take (capacity - o.pos - 1) t ++ 0 ∷ []

  length-written : (t : Text) → length (written t) ≡ min (capacity - 1 - o.pos) (length t) + 1
  length-written t = omega (
    arith,
    length-append {0} (take (capacity - o.pos - 1) t) (0 ∷ []),
    length-take {0} (capacity - o.pos - 1) t,
  )

  printed-Extends :
      (t : Text) (n : ℕ)
      → n ≡ min (capacity - 1 - o.pos) (length t)
      → Extends capacity t o
          (record { pos = o.pos + n; buffer = overwrite o.pos (written t) o.buffer })
  printed-Extends t n e =
      write-Extends t (written t) n e (omega (arith, length-written t))
        (omega (arith, length-written t, b.at_most, b.some_room)) same
    where
      cut_left : n ≤ length (take (capacity - o.pos - 1) t)
      cut_left = omega (arith, length-take {0} (capacity - o.pos - 1) t)

      same : take n (written t) ≡ take (capacity - 1 - o.pos) t
      same =
          take-append_left n (take (capacity - o.pos - 1) t) (0 ∷ []) cut_left
          ∙ take-take n (capacity - o.pos - 1) t (omega arith)
          ∙ ap (λ k. take k t) e
          ∙ take-min-length (capacity - 1 - o.pos) t

  advance-Extends :
      (t : Text)
      → Extends capacity t o
          (advance capacity o (some (length t), overwrite o.pos (written t) o.buffer)).1
  unfolding advance
  advance-Extends t = elim (Bool-cases (leb (capacity - o.pos) (length t))) [
    | inl cut ↦ rw cut (
        terminate-Extends b (omega (arith, b.at_most))
          (printed-Extends t (capacity - 1 - o.pos) (ground arith)))
    | inr whole ↦ rw whole (printed-Extends t (length t) (ground arith))
  ]

  pub appendf-Extends :
      (t : Text) → length t < 2 ^ 31 → Extends capacity t o (appendf capacity t o).1
  unfolding appendf
  appendf-Extends t small =
      let room : leb capacity o.pos ≡ false = ground (arith, b.at_most, b.some_room) in
      let size : 0 < capacity - o.pos = omega (arith, b.at_most, b.some_room) in
      rw (room, snprintf-text o.buffer o.pos (capacity - o.pos) t small size) (advance-Extends t)
