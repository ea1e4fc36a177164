-- ===== src/Logs/Tests.antt =====
-- Runs of the log tools, and the theorems at concrete logs.
use k8s_mcp.Base.{
  ℕ, String, ◌≡◌, refl, Bool, false, ◌&&◌, Option, none, some, List, [], ◌∷◌, leb, str_eq,
  if◌then◌else◌,
}
use k8s_mcp.Base.Text.{strip, lstrip, rstrip}
use k8s_mcp.Base.Text.Search.{contains}
use k8s_mcp.Logs.{Record}
use k8s_mcp.Logs.Lines.{parse_line, find_char, take_chars, drop_chars, splitlines, starts_line_feed}
use k8s_mcp.Logs.Merge.{
  Fetched, fetched, skipped, serial, fetch_logs_multi, fetch_logs_multi-eq-serial,
}
use k8s_mcp.Logs.Context.{pick, near, matches, ranges, filter_with_context, filter_with_context_lem}
use k8s_mcp.Logs.Window.{
  IsoTime, naive, aware, filter_by_time, filter_loop, record_dt, parse_rfc3339, normalized_time,
  replace_first_space, zulu_as_offset,
}

abbrev ascii_digit : ℕ → Bool
ascii_digit c = leb b'0' c && leb c b'9'

abbrev stamped_line : String
stamped_line = "2026-07-02T14:00:00Z  ready"

parse_run : parse_line ascii_digit stamped_line ≡ ("2026-07-02T14:00:00Z", " ready")
unfolding parse_line take_chars drop_chars find_char contains
parse_run = refl

split_run : splitlines "a\r\nb\n\nc" ≡ "a" ∷ "b" ∷ "" ∷ "c" ∷ []
unfolding splitlines starts_line_feed
split_run = refl

normalized_run : normalized_time " 2026-07-02 14:00:00Z" ≡ "2026-07-02T14:00:00+00:00"
unfolding normalized_time strip lstrip rstrip contains replace_first_space zulu_as_offset
normalized_run = refl

abbrev said : String → Record
said line = record { pod = "p"; container = "c"; time = ""; line = line }

abbrev six_lines : List Record
six_lines = said "a" ∷ said "b" ∷ said "error" ∷ said "c" ∷ said "d" ∷ said "error" ∷ []

abbrev is_error : String → Bool
is_error line = str_eq line "error"

context_run :
    filter_with_context is_error six_lines 1
    ≡ said "b" ∷ said "error" ∷ said "c" ∷ said "d" ∷ said "error" ∷ []
unfolding filter_with_context ranges
context_run = refl

filter_with_context_lem_example :
    filter_with_context is_error six_lines 1
    ≡ pick (near 1 (matches is_error 0 six_lines)) 0 six_lines
filter_with_context_lem_example = filter_with_context_lem is_error six_lines 1

-- A pool of five pods, one of which is gone.
abbrev read_pod : String → Fetched
read_pod pn = if str_eq pn "b" then skipped "gone" else fetched (said pn ∷ [])

abbrev five : List String
five = "a" ∷ "b" ∷ "c" ∷ "d" ∷ "e" ∷ []

abbrev backwards : List String
backwards = "e" ∷ "d" ∷ "c" ∷ "b" ∷ "a" ∷ []

fetch_logs_multi-eq-serial_example :
    fetch_logs_multi read_pod "" backwards five ≡ serial read_pod "" five
fetch_logs_multi-eq-serial_example =
    fetch_logs_multi-eq-serial read_pod "" backwards five (refl, (refl, (refl, (refl, (refl, tt)))))

abbrev read_time : String → Option IsoTime
read_time s =
    if str_eq s "10" then some (naive 10) else if str_eq s "20" then some (aware 20) else none

abbrev timed : String → Record
timed time = record { pod = "p"; container = "c"; time = time; line = "x" }

window_run :
    filter_by_time read_time (timed "10" ∷ timed "20" ∷ timed "?" ∷ []) (some 15) none false
    ≡ timed "20" ∷ timed "?" ∷ []
unfolding filter_by_time filter_loop record_dt parse_rfc3339 normalized_time strip lstrip rstrip
    contains zulu_as_offset
window_run = refl
