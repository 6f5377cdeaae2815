-- ===== src/Conf/Log.antt =====
-- src/conf/log.rs: the level and the output of the log. A text is its bytes.
use Prim.Native.String.{String}
use mathlib.Core.Option
use bytehub.Prelude.{ℕ, ◌≡◌, refl, Bool, ◌&&◌, Option, none, List, if◌then◌else◌}
use bytehub.Prelude.Bytes.{bytes, ◌=?◌, to_ascii_lowercase}
use bytehub.Conf.Fields.{rst, take, is_none, take-take}

pub data LogLevel : Type 0 where
  off error warn info debug trace : LogLevel

-- `From<String>`: any case, and the default level on any other word.
unfoldable pub from_string : List ℕ → LogLevel
from_string x =
    let s = to_ascii_lowercase x in
    if s =? bytes "off"
    then LogLevel.off
    else if s =? bytes "error"
    then LogLevel.error
    else if s =? bytes "warn"
    then LogLevel.warn
    else if s =? bytes "info"
    then LogLevel.info
    else if s =? bytes "debug"
    then LogLevel.debug
    else if s =? bytes "trace"
    then LogLevel.trace
    else LogLevel.off

pub display : LogLevel → List ℕ
display LogLevel.off = bytes "off"
display LogLevel.error = bytes "error"
display LogLevel.warn = bytes "warn"
display LogLevel.info = bytes "info"
display LogLevel.debug = bytes "debug"
display LogLevel.trace = bytes "trace"

pub record LogConf : Type 0 where
  pub level : Option LogLevel
  pub output : Option (List ℕ)

abbrev pub empty_conf : LogConf
empty_conf = record { level = none; output = none }

pub is_empty : LogConf → Bool
is_empty c = is_none c.level && is_none c.output

unfoldable pub rst_field : LogConf → LogConf → LogConf
rst_field c o = record { level = rst c.level o.level; output = rst c.output o.output }

unfoldable pub take_field : LogConf → LogConf → LogConf
take_field c o = record { level = take c.level o.level; output = take c.output o.output }

-- `get` gives the value of an option on the command line.
unfoldable pub from_cmd_args : (String → Option (List ℕ)) → LogConf
from_cmd_args get = record {
  level = Option.map from_string (get "log_level");
  output = get "log_output";
}

-- A level is read back from what it is shown as, in any case of its letters.
pub from_string-display :
    (l : LogLevel) (s : List ℕ) → to_ascii_lowercase s ≡ display l → from_string s ≡ l
unfolding from_string display
from_string-display LogLevel.off s e = rw e refl
from_string-display LogLevel.error s e = rw e refl
from_string-display LogLevel.warn s e = rw e refl
from_string-display LogLevel.info s e = rw e refl
from_string-display LogLevel.debug s e = rw e refl
from_string-display LogLevel.trace s e = rw e refl

pub take_field_assoc :
    (a b c : LogConf) → take_field (take_field a b) c ≡ take_field a (take_field b c)
unfolding take_field
take_field_assoc a b c = simp take-take

-- What the level `warn` is shown as.
pub display_warn : display LogLevel.warn ≡ bytes "warn"
unfolding display
display_warn = refl
