-- ===== src/Text/Ascii.antt =====
-- `to_ascii_lowercase` and `eq_ignore_ascii_case`.
use desktop_mdm.Prelude.{Bool, map, ◌==◌, ℕ_eq, List_eq}
use desktop_mdm.Text.{Text, to_lower}

unfoldable pub to_ascii_lowercase : Text → Text
unfolding to_lower
to_ascii_lowercase = map to_lower

unfoldable pub eq_ignore_ascii_case : Text → Text → Bool
unfolding to_ascii_lowercase
eq_ignore_ascii_case s t = to_ascii_lowercase s == to_ascii_lowercase t
