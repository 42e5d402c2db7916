-- ===== src/Json.antt =====
-- `escape_json_string` and `append_indent`, of which src/ParserFramework.cpp, src/ReportAnalyzer.cpp,
-- src/IngestionPipeline.cpp and src/IngestionBundle.cpp each hold the same text. A function that
-- writes to an `std::ostringstream` returns what it appends.
pub mod Reader
pub mod Grammar
pub mod Embedded
use parser_framework.Base.{ℕ, zero, suc, List, [], ◌∷◌, ◌++◌, ◌==◌, if◌then◌else◌, Str, codes}

unfoldable pub escape_byte : ℕ → Str
escape_byte ch =
    if ch == b'\\'
    then codes "\\\\"
    else if ch == b'"'
    then codes "\\\""
    else if ch == 8
    then codes "\\b"
    else if ch == 12
    then codes "\\f"
    else if ch == 10
    then codes "\\n"
    else if ch == 13
    then codes "\\r"
    else if ch == 9
    then codes "\\t"
    else ch ∷ []

unfoldable pub escape_json_string : Str → Str
unfolding escape_byte
escape_json_string [] = []
escape_json_string (ch ∷ rest) = escape_byte ch ++ escape_json_string rest

unfoldable pub append_indent : ℕ → Str
append_indent zero = []
append_indent (suc depth) = codes "  " ++ append_indent depth
