-- ===== src/Base/Text.antt =====
-- Texts, one after the other.
use Prim.Native.String.{String, ◌++◌}

unfoldable pub concat : String → String → String
concat s t = s ++ t
