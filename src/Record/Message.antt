-- ===== src/Record/Message.antt =====
-- Every way to fill the message leaves a terminated text that fits the buffer.
use low_latency_logger.Prelude.{
  ℕ, ◌+◌, ◌-◌, ◌^◌, ◌≤◌, ◌<◌, min, Option, none, some, [], ◌∷◌, ◌++◌, ◌≡◌, refl, sym, ap, ◌∙◌,
  length, take, get_elem?, length-take, length-append, take-take, take_all, take-append_left,
  get_elem?-append, leb, ltb, ◌==◌, if◌then◌else◌, arith, Bool-cases, inl, inr, ==_iff,
}
use low_latency_logger.Prelude.Text.{Text}
use low_latency_logger.Config.{Config}
use low_latency_logger.Libc.{overwrite, terminate, snprintf}
use low_latency_logger.Libc.Laws.{
  length-overwrite, take-overwrite, take-overwrite_end, get_elem?-overwrite, snprintf-error,
  snprintf-text,
}
use low_latency_logger.Record.{
  LogRecord, clear_message, copy_message, truncate, set_message, set_message_n, format_message,
}

-- The message as a reader of the record sees it.
abbrev pub message_text : LogRecord → Text
message_text r = take r.message_length r.message

-- The buffer has its size.
abbrev pub IsSized : Config → LogRecord → Type 0
IsSized cfg r = length r.message ≡ cfg.max_message_size

-- After a setter that returned `n`: the record holds `t`, of length `n`, terminated inside the
-- buffer.
pub record HoldsMessage (cfg : Config) (t : Text) (n : ℕ) (r : LogRecord) : Type 0 where
  pub sized : IsSized cfg r
  pub returned : r.message_length ≡ n
  pub counted : n ≡ length t
  pub inside : n < cfg.max_message_size
  pub content : message_text r ≡ t
  pub terminated : get_elem? r.message n ≡ some 0

-- What a message becomes in the record: its first `LOGGER_MAX_MESSAGE_SIZE - 1` bytes.
abbrev pub truncated : Config → Text → Text
truncated cfg msg = take (cfg.max_message_size - 1) msg

-- What each setter is to store: a null pointer and a failed rendering give the empty message.
abbrev pub stored : Config → Option Text → Text
stored cfg none = []
stored cfg (some msg) = truncated cfg msg

abbrev pub rendered_text : Option (Option Text) → Option Text
rendered_text none = none
rendered_text (some none) = none
rendered_text (some (some t)) = if leb (2 ^ 31) (length t) then none else some t

module _ (cfg : Config) (pos : 0 < cfg.max_message_size) where
  truncate-lt : (len : ℕ) → truncate cfg len < cfg.max_message_size
  truncate-lt len = ground arith

  take-truncate :
      (msg : Text) (len : ℕ)
      → len ≤ length msg
      → take (truncate cfg len) msg ≡ truncated cfg (take len msg)
  take-truncate msg len h = elim (Bool-cases (leb cfg.max_message_size len)) [
    | inl long ↦ rw long (sym (take-take (cfg.max_message_size - 1) len msg (ground arith)))
    | inr short ↦ rw short (
        sym (
          take_all (cfg.max_message_size - 1) (take len msg)
            (ground (arith, length-take {0} len msg))))
  ]

  module _ (r : LogRecord) (sized : IsSized cfg r) where
    clear-HoldsMessage : HoldsMessage cfg [] 0 (clear_message r)
    clear-HoldsMessage = record {
      sized = length-overwrite 0 (0 ∷ []) r.message (omega arith) ∙ sized;
      returned = refl;
      counted = refl;
      inside = pos;
      content = refl;
      terminated = get_elem?-overwrite 0 (0 ∷ []) r.message (omega arith) 0 (omega arith);
    }

    copy-HoldsMessage :
        (len : ℕ) (msg : Text)
        → len < cfg.max_message_size
        → len ≤ length msg
        → HoldsMessage cfg (take len msg) len (copy_message len msg r)
    copy-HoldsMessage len msg small enough =
        let bytes = take len msg in
        let copied = overwrite 0 bytes r.message in
        let n : length bytes ≡ len = omega (arith, length-take {0} len msg) in
        let fits : 0 + length bytes ≤ length r.message = omega arith in
        let same : length copied ≡ length r.message = length-overwrite 0 bytes r.message fits in
        let ends : len + 1 ≤ length copied = omega arith in
        let all : 0 + length bytes ≡ len = omega arith in
        let here : len + 0 ≡ len = omega arith in
        record {
          sized = length-overwrite len (0 ∷ []) copied ends ∙ same ∙ sized;
          returned = refl;
          counted = sym n;
          inside = small;
          content =
              take-overwrite len (0 ∷ []) copied ends len (omega arith)
              ∙ ap (λ k. take k copied) (sym all)
              ∙ take-overwrite_end 0 bytes r.message fits (length bytes) (omega arith)
              ∙ take_all (length bytes) bytes (omega arith);
          terminated =
              ap (λ k. get_elem? (terminate len copied) k) (sym here)
              ∙ get_elem?-overwrite len (0 ∷ []) copied ends 0 (omega arith);
        }

    printed-HoldsMessage :
        (t : Text)
        → let len =
            if ltb (length t) cfg.max_message_size then length t else cfg.max_message_size - 1 in
          HoldsMessage cfg (truncated cfg t) len (record r {
            message = overwrite 0 (truncated cfg t ++ 0 ∷ []) r.message;
            message_length = len;
          })
    printed-HoldsMessage t =
        let bytes = truncated cfg t in
        let n : length bytes ≡ min (cfg.max_message_size - 1) (length t) =
          length-take {0} (cfg.max_message_size - 1) t in
        let whole : length (bytes ++ 0 ∷ []) ≡ length bytes + 1 =
          length-append {0} bytes (0 ∷ []) in
        let fits : 0 + length (bytes ++ 0 ∷ []) ≤ length r.message = omega arith in
        let len : (if ltb (length t) cfg.max_message_size
              then length t
              else cfg.max_message_size - 1)
            ≡ length bytes =
          ground arith in
        let here : 0 + length bytes ≡ length bytes = omega arith in
        let last : get_elem? (bytes ++ 0 ∷ []) (length bytes) ≡ some 0 =
          ground (arith, get_elem?-append bytes 0 (length bytes)) in
        rw len (record {
          sized = length-overwrite 0 (bytes ++ 0 ∷ []) r.message fits ∙ sized;
          returned = refl;
          counted = refl;
          inside = omega arith;
          content =
              ap (λ k. take k (overwrite 0 (bytes ++ 0 ∷ []) r.message)) (sym here)
              ∙ take-overwrite_end 0 (bytes ++ 0 ∷ []) r.message fits (length bytes) (omega arith)
              ∙ take-append_left (length bytes) bytes (0 ∷ []) (omega arith)
              ∙ take_all (length bytes) bytes (omega arith);
          terminated =
              ap (λ k. get_elem? (overwrite 0 (bytes ++ 0 ∷ []) r.message) k) (sym here)
              ∙ get_elem?-overwrite 0 (bytes ++ 0 ∷ []) r.message fits (length bytes) (omega arith)
              ∙ last;
        })

    -- With a message size that is not zero, on a record whose buffer has that size:
    -- `SetMessage(msg)` stores the first `LOGGER_MAX_MESSAGE_SIZE-1` bytes of the message, and
    -- nothing for a null pointer; it returns the length stored, and leaves the buffer with its
    -- size and with a terminator behind the text.
    pub set_message-HoldsMessage :
        (msg : Option Text)
        → let (n, r') = set_message cfg msg r in HoldsMessage cfg (stored cfg msg) n r'
    unfolding set_message
    set_message-HoldsMessage none = clear-HoldsMessage
    set_message-HoldsMessage (some msg) =
        let len = truncate cfg (length msg) in
        let cut : take len msg ≡ truncated cfg msg =
          take-truncate msg (length msg) (omega arith)
          ∙ ap (truncated cfg) (take_all (length msg) msg (omega arith)) in
        rw (← cut) (copy-HoldsMessage len msg (truncate-lt (length msg)) (ground arith))

    -- With a message size that is not zero, on a record whose buffer has that size:
    -- `SetMessage(msg, len)`, for a pointer behind which `len` bytes can be read, stores the first
    -- `LOGGER_MAX_MESSAGE_SIZE-1` of these bytes, zero bytes among them included; it returns the
    -- length stored, and leaves the buffer with its size and with a terminator behind the text.
    pub set_message_n-HoldsMessage :
        (msg : Text) (len : ℕ)
        → len ≤ length msg
        → let (n, r') = set_message_n cfg (some msg) len r in
          HoldsMessage cfg (truncated cfg (take len msg)) n r'
    unfolding set_message_n
    set_message_n-HoldsMessage msg len h = elim (Bool-cases (len == 0)) [
      | inl zero_length ↦
          let nothing : truncated cfg (take len msg) ≡ [] =
            ap (λ k. truncated cfg (take k msg)) ((==_iff len 0).0 zero_length)
            ∙ take_all (cfg.max_message_size - 1) [] (omega arith) in
          rw (zero_length, nothing) clear-HoldsMessage
      | inr positive ↦
          rw (positive, ← take-truncate msg len h)
            (copy-HoldsMessage (truncate cfg len) msg (truncate-lt len) (ground arith))
    ]

    -- With a message size that is not zero, on a record whose buffer has that size:
    -- `FormatMessage` stores the first `LOGGER_MAX_MESSAGE_SIZE-1` bytes of what the format
    -- renders to, and nothing for a null format, for an encoding error or for a text whose length
    -- is no `int`; it returns the length stored, and leaves the buffer with its size and with a
    -- terminator behind the text.
    pub format_message-HoldsMessage :
        (fmt : Option (Option Text))
        → let (n, r') = format_message cfg fmt r in
          HoldsMessage cfg (stored cfg (rendered_text fmt)) n r'
    unfolding format_message
    format_message-HoldsMessage none = clear-HoldsMessage
    format_message-HoldsMessage (some none) = unfold snprintf in clear-HoldsMessage
    format_message-HoldsMessage (some (some t)) = elim (Bool-cases (leb (2 ^ 31) (length t))) [
      | inl long ↦
          rw (long, snprintf-error r.message 0 cfg.max_message_size t (ground arith))
            clear-HoldsMessage
      | inr short ↦
          rw (short, snprintf-text r.message 0 cfg.max_message_size t (ground arith) pos)
            (printed-HoldsMessage t)
    ]
