-- ===== src/Tools/Tests.antt =====
-- Replacing in "aXXb".
use libov.Prelude.{◌≡◌, none, some, [], ◌∷◌}
use libov.Message.{Bytes}
use libov.Tools.{replace_loop, ovstrrep}
use libov.Tools.Replace.{ovstrrep-scan, replace_loop_stuck}

abbrev text : Bytes
text = b'a' ∷ b'X' ∷ b'X' ∷ b'b' ∷ []

ovstrrep-scan_example :
    ovstrrep text (b'X' ∷ []) (b'X' ∷ b'y' ∷ [])
    ≡ some (b'a' ∷ b'X' ∷ b'y' ∷ b'X' ∷ b'y' ∷ b'b' ∷ [])
ovstrrep-scan_example = ovstrrep-scan b'X' [] (b'X' ∷ b'y' ∷ []) text

empty_pattern_sticks : replace_loop 1000 text [] [] (b'y' ∷ []) ≡ none
empty_pattern_sticks = replace_loop_stuck 1000 b'a' (b'X' ∷ b'X' ∷ b'b' ∷ []) [] (b'y' ∷ [])
