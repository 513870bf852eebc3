-- ===== src/Logger.antt =====
-- The lines of the log (pkg/logger/logger.go), as values.
use cert_rotator.Base.{
  String, List, [], ◌∷◌, ◌++◌, map, Option, none, some, ◌==◌, string_eq, if◌then◌else◌,
}
use cert_rotator.Base.Int.{ℤ}
use cert_rotator.Host.{Error, text}

pub data Level : Type 0 where
  debug_level : Level
  info_level : Level
  warn_level : Level
  error_level : Level

-- The value of a `slog.Attr`: `slog.String` or `slog.Int`.
pub data AttrValue : Type 0 where
  text_value : String → AttrValue
  int_value : ℤ → AttrValue

-- The attributes in their order. A key may occur twice.
abbrev pub Attrs : Type 0
Attrs = List (String × AttrValue)

pub record Entry : Type 0 where
  pub level : Level
  pub msg : String
  pub attrs : Attrs

unfoldable pub build_fields : String → String → Attrs → Attrs
build_fields component node args =
    (("component", text_value component) ∷ [])
    ++ (if node == "" then [] else (("node", text_value node) ∷ []))
    ++ args

unfoldable pub info : String → String → String → Attrs → Entry
info component node msg args = record {
  level = info_level;
  msg = msg;
  attrs = build_fields component node args;
}

unfoldable pub debug : String → String → String → Attrs → Entry
debug component node msg args = record {
  level = debug_level;
  msg = msg;
  attrs = build_fields component node args;
}

unfoldable pub warn : String → String → String → Attrs → Entry
warn component node msg args = record {
  level = warn_level;
  msg = msg;
  attrs = build_fields component node args;
}

abbrev error_attrs : Option Error → Attrs
error_attrs none = []
error_attrs (some e) = ("error", text_value (text e)) ∷ []

unfoldable pub error : String → String → String → Option Error → Attrs → Entry
error component node msg e args = record {
  level = error_level;
  msg = msg;
  attrs = build_fields component node args ++ error_attrs e;
}

unfoldable pub critical : String → String → String → Option Error → Attrs → Entry
critical component node msg e args = record {
  level = error_level;
  msg = msg;
  attrs = build_fields component node args ++ (("severity", text_value "CRITICAL") ∷ error_attrs e);
}

unfoldable pub cert_info : String → String → String → String → Attrs → Entry
cert_info component node cert_name msg args = record {
  level = info_level;
  msg = msg;
  attrs =
      ("component", text_value component)
      ∷ ("node", text_value node)
      ∷ ("cert", text_value cert_name)
      ∷ args;
}

unfoldable pub phase : String → String → String → Entry
phase from to node = record {
  level = info_level;
  msg = "State transition";
  attrs =
      ("component", text_value "orchestrator")
      ∷ ("node", text_value node)
      ∷ ("from", text_value from)
      ∷ ("to", text_value to)
      ∷ [];
}

abbrev pub level_text : Level → String
level_text debug_level = "DEBUG"
level_text info_level = "INFO"
level_text warn_level = "WARN"
level_text error_level = "ERROR"

-- `ReplaceAttr`: it renames each attribute with the key of the message.
abbrev pub replace_attr : String × AttrValue → String × AttrValue
replace_attr (key, value) = (if key == "msg" then "message" else key, value)

-- The members of the JSON object that is written at a time, in its text. Each level is enabled.
unfoldable pub line : String → Entry → Attrs
line time e = map replace_attr (
    ("time", text_value time)
    ∷ ("level", text_value (level_text e.level))
    ∷ ("msg", text_value e.msg)
    ∷ e.attrs)
