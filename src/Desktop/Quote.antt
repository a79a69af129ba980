-- ===== src/Desktop/Quote.antt =====
-- apps/windows-agent/src/ui/panels.rs: the command line of an elevated script.
use desktop_mdm.Prelude.{
  ℕ, List, [], ◌∷◌, ◌++◌, if◌then◌else◌, ◌==◌, ℕ_eq, Bool_eq, List_eq, Option_eq,
}
use desktop_mdm.Text.{Text, chars, concat}

abbrev pub quote : ℕ
quote = 39

-- `replace('\'', "''")`
unfoldable pub double_quotes : Text → Text
double_quotes [] = []
double_quotes (c ∷ s) = if c == quote then quote ∷ quote ∷ double_quotes s else c ∷ double_quotes s

unfoldable pub powershell_quote : Text → Text
unfolding double_quotes
powershell_quote value = quote ∷ (double_quotes value ++ quote ∷ [])

-- `join(",")`
unfoldable pub join_comma : List Text → Text
join_comma [] = []
join_comma (item ∷ []) = item
join_comma (item ∷ next ∷ items) = item ++ b',' ∷ join_comma (next ∷ items)

unfoldable pub quoted_pairs : List (Text × Text) → List Text
quoted_pairs [] = []
quoted_pairs ((name, value) ∷ pairs) =
    powershell_quote name ∷ powershell_quote value ∷ quoted_pairs pairs

-- The items of `run_elevated_script`.
unfoldable pub argument_list : Text → List (Text × Text) → Text
unfolding join_comma quoted_pairs powershell_quote
argument_list script pairs = join_comma (
    powershell_quote (chars "-NoProfile")
    ∷ powershell_quote (chars "-NonInteractive")
    ∷ powershell_quote (chars "-ExecutionPolicy")
    ∷ powershell_quote (chars "Bypass")
    ∷ powershell_quote (chars "-File")
    ∷ powershell_quote script
    ∷ quoted_pairs pairs)

unfoldable pub outer_command : Text → List (Text × Text) → Text
unfolding argument_list
outer_command script pairs = concat (
    chars "$ErrorActionPreference='Stop'; $p=Start-Process -FilePath 'powershell.exe' "
    ∷ chars "-ArgumentList "
    ∷ argument_list script pairs
    ∷ chars " -Verb RunAs -PassThru -Wait; exit $p.ExitCode"
    ∷ [])
