-- ===== src/Std/Json/Syntax.antt =====
-- Package encoding/json: the scanner as the syntax that the decoders take; the texts of its errors are
-- given.
use golang_fin.Prelude.{String}
use golang_fin.Std.Json.{JsonSyntax}
use golang_fin.Std.Json.Step as Step

abbrev pub json_syntax : (String → String → String) → JsonSyntax
json_syntax error_of = record { scan = Step.scan; error_of = error_of }
