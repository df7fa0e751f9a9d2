-- ===== src/Wire/Errors.antt =====
-- errors.go, and the errors of package io that framing.go returns: their texts.
use p.Common.{ℕ, List, ◌++◌}
use p.Wire.Types.{
  text, Error, truncated, trailing_bytes, msg_too_large, unknown_type, too_many_welem, eof,
  unexpected_eof, decoding,
}
use p.Wire.Fcall.Types.{fcall_type_string}

unfoldable pub error_text : Error → List ℕ
error_text truncated = text "p9: message truncated"
error_text trailing_bytes = text "p9: trailing bytes after message"
error_text msg_too_large = text "p9: message exceeds msize"
error_text unknown_type = text "p9: unknown message type"
error_text too_many_welem = text "p9: too many walk elements"
error_text eof = text "EOF"
error_text unexpected_eof = text "unexpected EOF"
error_text (decoding t e) =
    text "p9: decoding " ++ (text (fcall_type_string t) ++ (text ": " ++ error_text e))
