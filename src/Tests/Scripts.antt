-- ===== src/Tests/Scripts.antt =====
-- The output of scripts, on a small input.
use ework_runner.Prelude.{◌≡◌, refl}
use ework_runner.Prelude.Text.{trim_space, trim_left, trim_right, is_space}
use ework_runner.Execute.Output.{want_result, split_lines, last_valid}
use ework_runner.Execute.Output.LastLine.{want_result-last_line}

want_result-last_line_example :
    want_result "one\n\n two \n" ≡ last_valid (split_lines (trim_space "one\n\n two \n"))
unfolding trim_space trim_left trim_right is_space
want_result-last_line_example = want_result-last_line "one\n\n two \n" refl
