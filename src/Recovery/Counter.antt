-- ===== src/Recovery/Counter.antt =====
-- crates/emi-core/src/recovery.rs: `read_counter` and `record_counter`. The file is its text,
-- `none` where it is missing, cannot be read or is no UTF-8.
use desktop_mdm.Prelude.{
  ℕ, ◌-◌, ◌^◌, ◌<◌, ◌≡◌, Bool, Option, none, some, get_or, if◌then◌else◌, arith,
}
use desktop_mdm.Prelude.Result.{Result, ok, err}
use desktop_mdm.Text.{Text}
use desktop_mdm.Text.Trim.{trim, trim-NoSpace}
use desktop_mdm.Text.Number.{parse_unsigned, to_string, to_string-NoSpace, parse_unsigned-to_string}

unfoldable pub read_counter : Option Text → ℕ
read_counter none = 0
read_counter (some text) = get_or (parse_unsigned 10 (2 ^ 64 - 1) (trim text)) 0

pub data IoError : Type 0 where
  create_dir write_file : IoError

-- What the operating system does: whether the two calls succeed, and what a failed write leaves.
pub record CounterIo : Type 0 where
  pub dir_created : Bool
  pub written : Bool
  pub left_over : Option Text

unfoldable pub record_counter :
    CounterIo → Option Text → ℕ → Result IoError (Unit {0}) × Option Text
record_counter io file counter =
    if io.dir_created
    then if io.written then (ok tt, some (to_string counter)) else (err write_file, io.left_over)
    else (err create_dir, file)

-- A counter that was recorded without an error is the counter that is read next.
pub read_counter-record_counter :
    (io : CounterIo) (file : Option Text) (counter : ℕ)
    → counter < 2 ^ 64
    → (record_counter io file counter).0 ≡ ok tt
    → read_counter (record_counter io file counter).1 ≡ counter
unfolding read_counter record_counter
read_counter-record_counter io file counter h done = ground (
  arith,
  trim-NoSpace (to_string counter) (to_string-NoSpace counter),
  parse_unsigned-to_string counter h,
)
