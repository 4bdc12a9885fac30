-- ===== src/Colors.antt =====
-- src/utils/colors.h and colors.cpp, and `get_env` of src/l0_system/system.cpp: texts between ANSI escape
-- sequences.
pub mod Visible
use Prim.Native.String.{String}
use text.Mathlib.Text.{◌==◌ as str_eq}
use libremo.Prelude.{
  ℕ, ◌+◌, Bool, true, false, not, ◌&&◌, ◌||◌, List, [], ◌∷◌, ◌++◌, ◌==◌, if◌then◌else◌, codes,
  decimal, Option,
}
use mathlib.Core.Option

pub data Color : Type 0 where
  none black red green yellow blue magenta cyan white : Color
  bright_black bright_red bright_green bright_yellow : Color
  bright_blue bright_magenta bright_cyan bright_white : Color

-- The values of the enumerators.
abbrev pub color_code : Color → ℕ
color_code Color.none = 0
color_code black = 30
color_code red = 31
color_code green = 32
color_code yellow = 33
color_code blue = 34
color_code magenta = 35
color_code cyan = 36
color_code white = 37
color_code bright_black = 90
color_code bright_red = 91
color_code bright_green = 92
color_code bright_yellow = 93
color_code bright_blue = 94
color_code bright_magenta = 95
color_code bright_cyan = 96
color_code bright_white = 97

pub data Style : Type 0 where
  none bold underline : Style

abbrev pub style_code : Style → ℕ
style_code Style.none = 0
style_code bold = 1
style_code underline = 4

pub data UseColors : Type 0 where
  never always automatic : UseColors

-- The stream that the colours are for.
pub data Stream : Type 0 where
  stdout stderr other : Stream

-- sys::get_env, for what getenv() returns
abbrev pub get_env : Option String → String
get_env Option.none = ""
get_env (Option.some ev) = ev

-- The environment's word on the mode `automatic`.
unfoldable pub from_environment : String → UseColors → UseColors
from_environment ev automatic =
    if str_eq ev "always" then always else if str_eq ev "never" then never else automatic
from_environment ev mode = mode

-- Colors::colors_requested, with what isatty() returns
abbrev pub colors_requested : Stream → Bool → Bool
colors_requested stdout isatty = isatty
colors_requested stderr isatty = isatty
colors_requested other isatty = false

-- Colors::request_color_support on a POSIX system
abbrev pub request_color_support : Bool
request_color_support = true

abbrev pub decide_colors : UseColors → Stream → Bool → Bool
decide_colors always out isatty = true
decide_colors never out isatty = false
decide_colors automatic out isatty =
    if colors_requested out isatty then request_color_support else false

-- Colors::Colors: the flag `m_use_colors`
unfoldable pub new_colors : Option String → Stream → Bool → UseColors → Bool
unfolding from_environment
new_colors variable out isatty mode =
    decide_colors (from_environment (get_env variable) mode) out isatty

abbrev pub has_color : Color → Bool
has_color c = not (color_code c == 0)

abbrev pub has_style : Style → Bool
has_style s = not (style_code s == 0)

-- `colorized += sep + std::to_string(...)`, with the separator for what comes next
abbrev pub add_code : Bool → ℕ → List ℕ × List ℕ → List ℕ × List ℕ
add_code present n (colorized, sep) =
    if present then (colorized ++ (sep ++ decimal n), codes ";") else (colorized, sep)

-- Between `\x1B[` and `m`.
unfoldable pub sequence_codes : Color → Color → Style → List ℕ
sequence_codes forecol backcol style =
    (add_code (has_style style) (style_code style) (
      add_code (has_color backcol) (color_code backcol + 10)
        (add_code (has_color forecol) (color_code forecol) ([], [])))).0

abbrev pub escape : ℕ
escape = 0x1B

-- Colors::colorize; the flag is `m_use_colors`
unfoldable pub colorize : Bool → List ℕ → Color → Color → Style → List ℕ
unfolding sequence_codes
colorize use_colors str forecol backcol style =
    if use_colors && (has_color forecol || (has_color backcol || has_style style))
    then escape
      ∷ b'['
      ∷ (sequence_codes forecol backcol style ++ (b'm' ∷ (str ++ (escape ∷ codes "[0m"))))
    else str
