-- ===== src/Logger.antt =====
-- src/utils/logger.h and logger.cpp, and `format_timestamp` of src/l0_system/system.cpp: the lines of the
-- log. A point in time is its distance from the epoch in microseconds.
pub mod Numbers
pub mod Levels
pub mod Lines
use libremo.Prelude.{
  ℕ, suc, ◌||◌, ◌+◌, ◌*◌, ◌/◌, ◌%◌, Bool, true, false, not, List, [], ◌∷◌, ◌++◌, ◌==◌, ltb, leb,
  if◌then◌else◌, length, take, codes, decimal, Option, none, some, replicate, ◌-◌,
}
use libremo.Colors.{
  Color, black, red, yellow, cyan, white, bright_black, bright_red, bright_green, bright_yellow,
  bright_blue, bright_magenta, bright_cyan, bright_white, Style, bold, underline, colorize,
}

-- A level is any int: `value n`, or `below n`, which is -1 - n.
pub data LogLevel : Type 0 where
  value : ℕ → LogLevel
  below : ℕ → LogLevel

abbrev pub log_none : LogLevel
log_none = below 0

abbrev pub log_fatal : LogLevel
log_fatal = value 0

abbrev pub log_error : LogLevel
log_error = value 1

abbrev pub log_warn : LogLevel
log_warn = value 2

abbrev pub log_note : LogLevel
log_note = value 3

abbrev pub log_excpt : LogLevel
log_excpt = value 4

abbrev pub log_info : LogLevel
log_info = value 5

abbrev pub log_verb : LogLevel
log_verb = value 6

abbrev pub log_all : LogLevel
log_all = value 9999

abbrev pub same_level : LogLevel → LogLevel → Bool
same_level (value a) (value b) = a == b
same_level (value a) (below b) = false
same_level (below a) (value b) = false
same_level (below a) (below b) = a == b

abbrev pub at_most : LogLevel → LogLevel → Bool
at_most (value a) (value b) = leb a b
at_most (value a) (below b) = false
at_most (below a) (value b) = true
at_most (below a) (below b) = leb b a

-- Logger::level_enabled, with `s_global_level`
unfoldable pub level_enabled : LogLevel → LogLevel → Bool
level_enabled level global = at_most level global || same_level global log_all

-- std::to_string of a level
abbrev pub level_text : LogLevel → List ℕ
level_text (value n) = decimal n
level_text (below n) = b'-' ∷ decimal (suc n)

-- How a level is shown: its label, the two colours and the style.
pub record Look : Type 0 where
  pub label : List ℕ
  pub fcol : Color
  pub bcol : Color
  pub style : Style

abbrev pub look_of : List ℕ → Color → Color → Style → Look
look_of label fcol bcol style = record { label = label; fcol = fcol; bcol = bcol; style = style }

-- The switch of `log`
unfoldable pub look : LogLevel → Look
look level =
    if same_level level log_fatal
    then look_of (codes "fatal") bright_white red underline
    else if same_level level log_error
    then look_of (codes "error") bright_red Color.none bold
    else if same_level level log_warn
    then look_of (codes "warn ") yellow Color.none Style.none
    else if same_level level log_note
    then look_of (codes "note ") bright_white Color.none bold
    else if same_level level log_excpt
    then look_of (codes "excpt") bright_magenta Color.none bold
    else if same_level level log_info
    then look_of (codes "info ") Color.none Color.none Style.none
    else if same_level level log_verb
    then look_of (codes "verb ") bright_black Color.none Style.none
    else look_of (b'L' ∷ level_text level) Color.none Color.none Style.none

-- The map of `get_thread_number`: thread ids with their numbers, the newest first.
abbrev pub find_thread : ℕ → List (ℕ × ℕ) → Option ℕ
find_thread tid [] = none
find_thread tid ((t, n) ∷ map) = if t == tid then some n else find_thread tid map

abbrev pub number_or_new : ℕ → List (ℕ × ℕ) → Option ℕ → ℕ × List (ℕ × ℕ)
number_or_new tid map (some n) = (n, map)
number_or_new tid map none = (length map, (tid, length map) ∷ map)

-- get_thread_number: the number of the thread, and the map then
unfoldable pub get_thread_number : ℕ → List (ℕ × ℕ) → ℕ × List (ℕ × ℕ)
get_thread_number tid map = number_or_new tid map (find_thread tid map)

-- thread_colors
abbrev pub thread_color_at : ℕ → Color
thread_color_at n =
    if n == 0
    then bright_white
    else if n == 1
    then bright_red
    else if n == 2
    then bright_green
    else if n == 3
    then bright_yellow
    else if n == 4
    then bright_blue
    else if n == 5
    then bright_magenta
    else if n == 6
    then bright_cyan
    else bright_black

abbrev pub thread_color : ℕ → Color
thread_color thread_num = thread_color_at (thread_num % 8)

-- The members of a logger that a line depends on; `use_colors` is that of `m_colors`.
pub record Logger : Type 0 where
  pub name : List ℕ
  pub use_colors : Bool
  pub invert_threshold : ℕ

-- Logger::Logger
abbrev pub new_logger : List ℕ → Bool → Logger
new_logger name use_colors = record {
  name = name;
  use_colors = use_colors;
  invert_threshold = 5000;
}

-- The static variables: `s_log`, the map of the threads and `s_global_level`.
pub record LogState : Type 0 where
  pub last_ts : ℕ
  pub invert : Bool
  pub threads : List (ℕ × ℕ)
  pub global_level : LogLevel

-- One call of `log`, with what it finds out: the time, the thread, and whether an exception is pending.
-- `formatted` is what the format and its arguments come to.
pub record Entry : Type 0 where
  pub level : LogLevel
  pub log_name : List ℕ
  pub formatted : List ℕ
  pub time : ℕ
  pub thread : ℕ
  pub unwinding : Bool

-- `setw(6)` filled with '0'
abbrev pub six_digits : ℕ → List ℕ
six_digits n = replicate (6 - length (decimal n)) b'0' ++ decimal n

-- vsnprintf() into an array of 1024 characters, the last of which is the NUL
abbrev pub message_of : Entry → List ℕ
message_of e = take 1023 e.formatted

-- The time of day of a second, in the time zone, is what localtime() and put_time() make of it.
module _ (time_of_day : ℕ → List ℕ) where
  -- sys::format_timestamp, where mktime() undoes localtime()
  abbrev pub format_timestamp : ℕ → List ℕ
  format_timestamp ts = time_of_day (ts / 1000000) ++ six_digits (ts % 1000000)

  unfoldable pub stamp_text : Bool → Bool → ℕ → List ℕ
  stamp_text use_colors invert ts =
      colorize use_colors (b'[' ∷ (format_timestamp ts ++ (b']' ∷ [])))
        (if invert then bright_white else black) (if invert then bright_black else white) Style.none

  -- "U:" for a thread that is unwinding
  unfoldable pub unwinding_text : Bool → Bool → List ℕ
  unwinding_text use_colors unwinding =
      if unwinding
      then colorize use_colors (codes "U") bright_magenta Color.none bold ++ codes ":"
      else []

  unfoldable pub thread_text : Bool → ℕ → List ℕ
  thread_text use_colors thread_num =
      colorize use_colors (b'T' ∷ decimal thread_num) (thread_color thread_num) Color.none
        Style.none

  abbrev pub object_text : Bool → List ℕ → List ℕ
  object_text use_colors [] = []
  object_text use_colors (c ∷ cs) =
      codes ":" ++ colorize use_colors (c ∷ cs) bright_magenta Color.none Style.none

  -- What the stream is built of, in order.
  unfoldable pub line : Logger → Entry → Bool → ℕ → List ℕ
  unfolding look stamp_text unwinding_text thread_text
  line logger e invert thread_num =
      let colors = logger.use_colors in
      let shown = look e.level in
      codes "libremo: "
      ++ (stamp_text colors invert e.time
          ++ (codes " ["
              ++ (colorize colors shown.label shown.fcol shown.bcol shown.style
                  ++ (codes "] ["
                      ++ (unwinding_text colors e.unwinding
                          ++ (thread_text colors thread_num
                              ++ (codes "] ["
                                  ++ (colorize colors logger.name cyan Color.none Style.none
                                      ++ (object_text colors e.log_name
                                          ++ (codes "] "
                                              ++ (colorize colors (message_of e) shown.fcol
                                                    shown.bcol shown.style
                                                  ++ (0x0A ∷ []))))))))))))

  -- The static variables after the call, where the level is enabled.
  abbrev pub noted : Logger → Entry → LogState → LogState
  noted logger e s = record s {
    last_ts = e.time;
    invert = if ltb (s.last_ts + logger.invert_threshold) e.time then not s.invert else s.invert;
    threads = (get_thread_number e.thread s.threads).1;
  }

  -- Logger::log: what is written to the output stream, if anything
  unfoldable pub log : Logger → Entry → LogState → LogState × Option (List ℕ)
  unfolding level_enabled get_thread_number line
  log logger e s =
      if level_enabled e.level s.global_level
      then (
        noted logger e s,
        some (line logger e (noted logger e s).invert (get_thread_number e.thread s.threads).0),
      )
      else (s, none)
