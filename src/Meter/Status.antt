-- ===== src/Meter/Status.antt =====
-- internal/lpmeter/decode.go, extractStatusMessage: the status text in bytes 40..63.
pub mod Runs
pub mod Shape
use lp_700_server.Prelude.{
  ℕ, suc, ◌+◌, ◌<◌, ◌≤◌, Bool, true, false, ◌&&◌, ◌||◌, not, List, [], ◌∷◌, ltb, leb, ◌==◌, reverse,
  if◌then◌else◌, length,
}
use lp_700_server.Meter.Snapshot.{Bytes}

-- The first loop: up to the first zero byte, the printable bytes.
unfoldable pub printable_prefix : Bytes → Bytes
printable_prefix [] = []
printable_prefix (b ∷ bs) =
    let rest = printable_prefix bs in
    if b == 0 then [] else if leb 0x20 b && ltb b 0x7f then b ∷ rest else rest

unfoldable pub drop_spaces : Bytes → Bytes
drop_spaces [] = []
drop_spaces (b ∷ bs) = let rest = drop_spaces bs in if b == b' ' then rest else b ∷ bs

-- The second loop, which takes spaces off the end.
unfoldable pub trim_spaces : Bytes → Bytes
unfolding drop_spaces
trim_spaces out = reverse (drop_spaces (reverse out))

unfoldable pub contains_space : Bytes → Bool
contains_space [] = false
contains_space (b ∷ bs) = b == b' ' || contains_space bs

unfoldable pub is_letter : ℕ → Bool
is_letter b = leb b'a' b && leb b b'z' || leb b'A' b && leb b b'Z'

-- The third loop, with its counter `run`.
unfoldable pub has_letter_run : ℕ → Bytes → Bool
unfolding is_letter
has_letter_run run [] = false
has_letter_run run (b ∷ bs) =
    let run' = if is_letter b then run + 1 else 0 in
    let rest = has_letter_run run' bs in if is_letter b && leb 3 run' then true else rest

-- The three shape tests on the trimmed text.
unfoldable pub accept_message : Bytes → Bytes
accept_message out =
    if ltb (length out) 4
    then []
    else if not (contains_space out)
    then []
    else if not (has_letter_run 0 out)
    then []
    else out

unfoldable pub extract_status_message : Bytes → Bytes
extract_status_message slot = accept_message (trim_spaces (printable_prefix slot))
