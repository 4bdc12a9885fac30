-- ===== src/Logger/Lines.antt =====
-- What a terminal shows of a line of the log.
use libremo.Prelude.{
  ℕ, zero, suc, ◌-◌, ◌/◌, ◌%◌, ◌≡◌, ◌↔◌, refl, ap, ◌∙◌, last_digits, decimal-six, Bool, true, false,
  List, [], ◌∷◌, ◌++◌, if◌then◌else◌, arith, length, take, replicate, codes, decimal, none, some,
}
use libremo.Colors.{Color, Style, bold, cyan, bright_magenta, colorize}
use libremo.Colors.Visible.{
  visible, IsPlain, Shows, Shows-whole, Shows-append, Shows-plain, Shows-colorize, IsPlain-append,
  decimal-IsPlain,
}
use libremo.Logger.Levels.{IsLogged, level_enabled_lem, label_of, label-eq, label-IsPlain}
use libremo.Logger.{
  look, level_enabled, get_thread_number, Logger, LogState, Entry, six_digits, message_of,
  format_timestamp, stamp_text, unwinding_text, thread_text, object_text, line, noted, log,
}

-- The time of day, and the microseconds as six digits.
abbrev pub clock_text : (ℕ → List ℕ) → ℕ → List ℕ
clock_text time_of_day ts = time_of_day (ts / 1000000) ++ last_digits 6 (ts % 1000000) []

-- The line without any colour.
abbrev pub named : List ℕ → List ℕ
named [] = []
named (c ∷ cs) = b':' ∷ c ∷ cs

abbrev pub line_with : List ℕ → List ℕ → List ℕ → List ℕ → Entry → ℕ → List ℕ
line_with clock label name message e thread_num =
    codes "libremo: "
    ++ ((b'[' ∷ (clock ++ (b']' ∷ [])))
        ++ (codes " ["
            ++ (label
                ++ (codes "] ["
                    ++ ((if e.unwinding then codes "U:" else [])
                        ++ ((b'T' ∷ decimal thread_num)
                            ++ (codes "] ["
                                ++ (name
                                    ++ (named e.log_name
                                        ++ (codes "] " ++ (message ++ (0x0A ∷ []))))))))))))

abbrev pub plain_line : (ℕ → List ℕ) → List ℕ → Entry → ℕ → List ℕ
plain_line time_of_day name e thread_num =
    line_with (clock_text time_of_day e.time) (label_of e.level) name (take 1023 e.formatted) e
      thread_num

clock-eq :
    (time_of_day : ℕ → List ℕ) (ts : ℕ)
    → format_timestamp time_of_day ts ≡ clock_text time_of_day ts
clock-eq time_of_day ts =
    ap (λ l. time_of_day (ts / 1000000) ++ l) (decimal-six (ts % 1000000) (omega arith))

-- No part of the line begins an escape sequence of its own.
pub record HasPlainTexts (time_of_day : ℕ → List ℕ) (logger : Logger) (e : Entry) : Type 0 where
  pub time : (seconds : ℕ) → IsPlain (time_of_day seconds)
  pub name : IsPlain logger.name
  pub object : IsPlain e.log_name
  pub message : IsPlain e.formatted

-- A piece of the line, with what is shown of it.
record Piece (text shown : List ℕ) : Type 0 where
  shows : Shows text shown

infixr 65 ◌&◌
◌&◌ : {s s' t t' : List ℕ} → Piece s s' → Piece t t' → Piece (s ++ t) (s' ++ t')
◌&◌ {s} {s'} {t} {t'} p q = record { shows = Shows-append s s' t t' p.shows q.shows }

plain : (text : List ℕ) → IsPlain text → Piece text text
plain text h = record { shows = Shows-plain text h }

colored :
    (use_colors : Bool) (str : List ℕ) (forecol backcol : Color) (style : Style)
    → IsPlain str
    → Piece (colorize use_colors str forecol backcol style) str
colored use_colors str forecol backcol style h = record {
  shows = Shows-colorize use_colors str forecol backcol style h;
}

IsPlain-take : (n : ℕ) (xs : List ℕ) → IsPlain xs → IsPlain (take n xs)
IsPlain-take zero xs h = tt
IsPlain-take (suc n) [] h = tt
IsPlain-take (suc n) (x ∷ xs) (h, hs) = (h, IsPlain-take n xs hs)

IsPlain-zeros : (n : ℕ) → IsPlain (replicate n b'0')
IsPlain-zeros zero = tt
IsPlain-zeros (suc n) = (omega arith, IsPlain-zeros n)

module _ (time_of_day : ℕ → List ℕ) where
  stamp-IsPlain :
      (ts : ℕ)
      → ((seconds : ℕ) → IsPlain (time_of_day seconds))
      → IsPlain (b'[' ∷ (format_timestamp time_of_day ts ++ (b']' ∷ [])))
  stamp-IsPlain ts h =
      let micros = decimal (ts % 1000000) in
      (
        omega arith,
        IsPlain-append (format_timestamp time_of_day ts) (b']' ∷ [])
            (IsPlain-append (time_of_day (ts / 1000000)) (six_digits (ts % 1000000))
              (h (ts / 1000000))
              (IsPlain-append (replicate (6 - length micros) b'0') micros
                (IsPlain-zeros (6 - length micros)) (decimal-IsPlain (ts % 1000000))))
            (omega arith, tt),
      )

  stamp_piece :
      (use_colors invert : Bool) (ts : ℕ)
      → ((seconds : ℕ) → IsPlain (time_of_day seconds))
      → Piece
          (stamp_text time_of_day use_colors invert ts)
          (b'[' ∷ (format_timestamp time_of_day ts ++ (b']' ∷ [])))
  unfolding stamp_text
  stamp_piece use_colors invert ts h =
      colored use_colors (b'[' ∷ (format_timestamp time_of_day ts ++ (b']' ∷ []))) _ _ Style.none
        (stamp-IsPlain ts h)

  unwinding_piece :
      (use_colors unwinding : Bool)
      → Piece
          (unwinding_text time_of_day use_colors unwinding)
          (if unwinding then codes "U:" else [])
  unfolding unwinding_text
  unwinding_piece use_colors false = plain [] tt
  unwinding_piece use_colors true =
      colored use_colors (codes "U") bright_magenta Color.none bold (omega arith)
      & plain (codes ":") (omega arith)

  thread_piece :
      (use_colors : Bool) (n : ℕ) → Piece (thread_text time_of_day use_colors n) (b'T' ∷ decimal n)
  unfolding thread_text
  thread_piece use_colors n =
      colored use_colors (b'T' ∷ decimal n) _ Color.none Style.none (omega arith, decimal-IsPlain n)

  object_piece :
      (use_colors : Bool) (object : List ℕ)
      → IsPlain object
      → Piece (object_text time_of_day use_colors object) (named object)
  object_piece use_colors [] h = plain [] tt
  object_piece use_colors (c ∷ cs) h =
      plain (codes ":") (omega arith)
      & colored use_colors (c ∷ cs) bright_magenta Color.none Style.none h

  line_piece :
      (logger : Logger) (e : Entry) (invert : Bool) (n : ℕ)
      → HasPlainTexts time_of_day logger e
      → Piece (line time_of_day logger e invert n) (
          line_with
            (format_timestamp time_of_day e.time)
            (look e.level).label
            logger.name
            (message_of e)
            e
            n)
  unfolding line
  line_piece logger e invert n h =
      let colors = logger.use_colors in
      let shown = look e.level in
      plain (codes "libremo: ") (omega arith)
      & stamp_piece colors invert e.time h.time
      & plain (codes " [") (omega arith)
      & colored colors shown.label shown.fcol shown.bcol shown.style (label-IsPlain e.level)
      & plain (codes "] [") (omega arith)
      & unwinding_piece colors e.unwinding
      & thread_piece colors n
      & plain (codes "] [") (omega arith)
      & colored colors logger.name cyan Color.none Style.none h.name
      & object_piece colors e.log_name h.object
      & plain (codes "] ") (omega arith)
      & colored colors (message_of e) shown.fcol shown.bcol shown.style
          (IsPlain-take 1023 e.formatted h.message)
      & plain (0x0A ∷ []) (omega arith)

  -- Where the level of an entry is above the global one, and the global one is not log_all,
  -- nothing is written and nothing changes. Otherwise, whatever the colours, a terminal shows the
  -- time of day with six digits of microseconds, the name of the level, or `L` and its number
  -- where it has none, the thread's number, marked where an exception is pending, the names of the
  -- logger and the object, and the first 1023 characters of the message, in this order and with a
  -- line feed behind them, provided that none of these texts begins an escape sequence.
  pub log_lem :
      (logger : Logger) (e : Entry) (s : LogState)
      → HasPlainTexts time_of_day logger e
      → ((level_enabled e.level s.global_level ≡ true) ↔ IsLogged e.level s.global_level)
        × (text : List ℕ) × (log time_of_day logger e s ≡ (
            if level_enabled e.level s.global_level
            then (noted time_of_day logger e s, some text)
            else (s, none)))
        × (visible text
            ≡ plain_line time_of_day logger.name e (get_thread_number e.thread s.threads).0)
  unfolding log
  log_lem logger e s h =
      let number = (get_thread_number e.thread s.threads).0 in
      let text = line time_of_day logger e (noted time_of_day logger e s).invert number in
      (
        level_enabled_lem e.level s.global_level,
        text,
        refl,
        Shows-whole text _
              (line_piece logger e (noted time_of_day logger e s).invert number h).shows
            ∙ ap (λ clock. line_with clock (look e.level).label logger.name (message_of e) e number)
                (clock-eq time_of_day e.time)
            ∙ ap
                (λ label.
                  line_with (clock_text time_of_day e.time) label logger.name (message_of e) e
                    number)
                (label-eq e.level),
      )
