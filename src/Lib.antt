-- ===== src/Lib.antt =====
-- Verification library of the parser framework: messages are identified by message rules, cut into
-- sections, searched for tokens by one of three engines, and reported on.
--
-- The parts, and the files that model them (paths from the root of the repository):
--   * Types: the data of include/parser_framework/ParserFramework.hpp and ParsingEngines.hpp. A
--     `SectionRule` is its settings with a list of nested sections.
--   * Libraries: what the program calls in the regex library, the dynamic property compiler
--     (subprojects/regex-parser) and the JSON parser (subprojects/jsmn). Each call is a field of a
--     record, which the definitions take as a parameter; nothing is assumed of the results. Yaml: the
--     same for the YAML library, where an undefined node is `none` and what a field of it throws is a
--     parameter too.
--   * Pattern: the walks over patterns, `rewrite_pattern_for_capture` of src/RegexParsingEngine.cpp and
--     `normalize_message_filter` of src/RuleLoader.cpp.
--   * Engines/Regex, Engines/Kv, Engines/Json: src/RegexParsingEngine.cpp, src/KVParsingEngine.cpp and
--     src/JSONParsingEngine.cpp. Property: src/DynamicPropertyEngine.cpp.
--   * Framework: src/ParserFramework.cpp. `parse_message` takes the first rule that `message_matches`,
--     and hands the slices of its sections to the engines by `dispatch_section`, which goes into the
--     nested sections of a section of kind MIXED.
--   * Report: src/ReportAnalyzer.cpp; Report/Correlation has `correlate_findings`.
--   * Ingestion: src/IngestionBundle.cpp; Ingestion/Loader reads the document, Ingestion/Validation has
--     the checks behind it. Pipeline: src/IngestionPipeline.cpp, which parses the records of a bundle's
--     collections and reports on all of them.
--   * Messages: src/MessageLoader.cpp, over a file system that is a parameter.
--   * Rules: src/RuleLoader.cpp. Rules/Rulesets reads rulesets, Rules/Examples and Rules/Expected run
--     their examples through the engines, Rules/Sections and Rules/Identification read message rules,
--     Rules/Paths finds message files, and Rules/Files goes through the files of rules: all rulesets of
--     all files first, then the rules. Report/Loader: the loader of report rules.
--   * Args: src/utils/Args.cpp. Json: the escaping of strings, of which four files hold the same text.
--   * Render: the tree of dotted names and its printer, of which src/ParserFramework.cpp and
--     src/ReportAnalyzer.cpp hold a copy each. Render/Results, Render/Reports, Render/Bundles and
--     Render/Processing: `render_results_as_json`, `render_reports_as_json`, `render_bundle_as_json` and
--     `render_bundle_processing_result_as_json`, the last of which embeds the texts of the others by
--     `indent_embedded_json` (Json/Embedded). A stream that entries and commas are written to in a loop
--     is `entry_lines` of the entries. Json/Grammar says what a JSON text is, by what a reader finds.
--   * Growth: the relation between a result before and after a part of the program; Engines/Growth
--     and Framework/Growth are about it. Framework/Filters, Framework/Choice, Ingestion/Meaning,
--     Ingestion/WellFormed, Ingestion/Loaded, Report/Groups, Report/Correlated, Report/Complete,
--     Report/Loaded, Pipeline/Resolve, Engines/Regex/Locate, Engines/Kv/Spans, Engines/Kv/Tokens,
--     Pattern/Numbers, Json/Reader, Args/Values, Messages/Loaded, Messages/Sort, Rules/Sound,
--     Rules/Loaded, Rules/Resolved, Rules/Accepted, Rules/Passed, Rules/Trusted, Rules/Depth,
--     Rules/Distinct, Render/Found, Render/Order, Render/Ordered, Render/Blocks, Render/Arrays, Render/Trees,
--     Render/Documents, Render/Readable, Render/ReportDocuments, Render/BundleDocuments,
--     Render/BundleReads and Render/ProcessingReads hold the other proofs; Tests has runs and the
--     theorems at concrete inputs.
--   * Base: lists, maps, strings, numbers, paths and results that the parts share.
--
-- How the model reads the code: an object that a function changes is an argument and a result of it
-- (`result`, `errors`). An exception is `err`; a loop in a `try` block ends with what it had built.
-- A string is the list of its bytes. A `std::map` is an association list in the order of its keys, and
-- so is an unordered map, whose order nothing reads. A sum of positions wraps at 2 ^ 64 (`add_size`);
-- sizes of strings and containers do not reach it.
-- A read of the first element of an empty vector is a fault, `none`.
-- The tests of a path (`exists`, `is_regular_file`, `is_directory`) answer yes or no: the exception that
-- they throw where the system cannot tell is left out, while that of a walk is modelled. The set and the
-- vector of the example messages, which hold the same strings, are one list.
-- Where a function walks an unordered map of values that are all expected, only the error that comes
-- first could depend on the order.
--
-- Fuel: `locate_loop` has `text.size() + 2` rounds. The offset grows in each round that goes on and the
-- loop ends behind the text, so this is enough. `resolve_loop` has a round for each byte of the base
-- path and one more, as each round takes a shorter path. `parse_section_node` takes its fuel as an
-- argument, one for each level of nested sections: more of it than the document is high is enough
-- (Rules/Depth). All other loops recur on what is left of their list, string or tree.
--
-- Not modelled: the libraries under subprojects/, the examples, the tests, and the services under
-- stack/.
pub mod Base
pub mod Json
pub mod Types
pub mod Pattern
pub mod Libraries
pub mod Growth
pub mod Engines
pub mod Property
pub mod Framework
pub mod Args
pub mod Yaml
pub mod Ingestion
pub mod Report
pub mod Pipeline
pub mod Messages
pub mod Rules
pub mod Render
pub mod Tests
