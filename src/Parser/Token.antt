-- ===== src/Parser/Token.antt =====
-- crates/parser/src/lexer.rs: the tokens, and how each is printed.
--
-- A float is its bit pattern; printing one is the standard library's, a parameter.
use jibs.Prelude.{
  ℕ, Bool, true, false, ◌&&◌, List, [], ◌∷◌, ◌++◌, Option, none, some, if◌then◌else◌, codes, ◌==◌,
  bytes_eq,
}
use jibs.Prelude.Decimal.{decimal_i64}
use jibs.Prelude.Int.{ℤ, int_eq}
use jibs.Parser.Chars.{Chars}

pub data Token : Type 0 where
  int : ℤ → Token
  float : ℕ → Token
  bool : Bool → Token
  string : Chars → Token
  multiline_string : Chars → Token
  regex : Chars → Token
  ident : Chars → Token
  import var faker relation anonymize exclude_data ignore_table ignore_relation aggregate get :
      Token
  preserve set after root where_word order by limit full exclude : Token
  root_only match when null type_string type_int type_float type_bool asc desc : Token
  arrow spread eq not_eq lt_eq gt_eq and or lt gt : Token
  not plus minus star slash percent assign l_brace r_brace l_bracket : Token
  r_bracket l_paren r_paren colon comma dot hash dollar : Token

-- `Display`
module _ (format_f64 : ℕ → Chars) where
  unfoldable pub display : Token → Chars
  display (Token.int n) = decimal_i64 n
  display (Token.float n) = format_f64 n
  display (Token.bool true) = codes "true"
  display (Token.bool false) = codes "false"
  display (Token.string s) = codes "\"" ++ (s ++ codes "\"")
  display (Token.multiline_string s) = codes "\"\"\"" ++ (s ++ codes "\"\"\"")
  display (Token.regex s) = codes "/" ++ (s ++ codes "/")
  display (Token.ident s) = s
  display Token.import = codes "import"
  display Token.var = codes "var"
  display Token.faker = codes "faker"
  display Token.relation = codes "relation"
  display Token.anonymize = codes "anonymize"
  display Token.exclude_data = codes "exclude_data"
  display Token.ignore_table = codes "ignore_table"
  display Token.ignore_relation = codes "ignore_relation"
  display Token.aggregate = codes "aggregate"
  display Token.get = codes "get"
  display Token.preserve = codes "preserve"
  display Token.set = codes "set"
  display Token.after = codes "after"
  display Token.root = codes "root"
  display Token.where_word = codes "where"
  display Token.order = codes "order"
  display Token.by = codes "by"
  display Token.limit = codes "limit"
  display Token.full = codes "full"
  display Token.exclude = codes "exclude"
  display Token.root_only = codes "root_only"
  display Token.match = codes "match"
  display Token.when = codes "when"
  display Token.null = codes "null"
  display Token.type_string = codes "string"
  display Token.type_int = codes "int"
  display Token.type_float = codes "float"
  display Token.type_bool = codes "bool"
  display Token.asc = codes "asc"
  display Token.desc = codes "desc"
  display Token.arrow = codes "->"
  display Token.spread = codes "..."
  display Token.eq = codes "=="
  display Token.not_eq = codes "!="
  display Token.lt_eq = codes "<="
  display Token.gt_eq = codes ">="
  display Token.and = codes "&&"
  display Token.or = codes "||"
  display Token.lt = codes "<"
  display Token.gt = codes ">"
  display Token.not = codes "!"
  display Token.plus = codes "+"
  display Token.minus = codes "-"
  display Token.star = codes "*"
  display Token.slash = codes "/"
  display Token.percent = codes "%"
  display Token.assign = codes "="
  display Token.l_brace = codes "{"
  display Token.r_brace = codes "}"
  display Token.l_bracket = codes "["
  display Token.r_bracket = codes "]"
  display Token.l_paren = codes "("
  display Token.r_paren = codes ")"
  display Token.colon = codes ":"
  display Token.comma = codes ","
  display Token.dot = codes "."
  display Token.hash = codes "#"
  display Token.dollar = codes "$"

-- The words that `ident_or_keyword` knows.
abbrev pub words : List (Chars × Token)
words =
    (codes "import", Token.import)
    ∷ (codes "var", Token.var)
    ∷ (codes "faker", Token.faker)
    ∷ (codes "relation", Token.relation)
    ∷ (codes "anonymize", Token.anonymize)
    ∷ (codes "exclude_data", Token.exclude_data)
    ∷ (codes "ignore_table", Token.ignore_table)
    ∷ (codes "ignore_relation", Token.ignore_relation)
    ∷ (codes "aggregate", Token.aggregate)
    ∷ (codes "get", Token.get)
    ∷ (codes "preserve", Token.preserve)
    ∷ (codes "set", Token.set)
    ∷ (codes "after", Token.after)
    ∷ (codes "root", Token.root)
    ∷ (codes "where", Token.where_word)
    ∷ (codes "order", Token.order)
    ∷ (codes "by", Token.by)
    ∷ (codes "limit", Token.limit)
    ∷ (codes "full", Token.full)
    ∷ (codes "exclude", Token.exclude)
    ∷ (codes "root_only", Token.root_only)
    ∷ (codes "match", Token.match)
    ∷ (codes "when", Token.when)
    ∷ (codes "null", Token.null)
    ∷ (codes "string", Token.type_string)
    ∷ (codes "int", Token.type_int)
    ∷ (codes "float", Token.type_float)
    ∷ (codes "bool", Token.type_bool)
    ∷ (codes "asc", Token.asc)
    ∷ (codes "desc", Token.desc)
    ∷ (codes "true", Token.bool true)
    ∷ (codes "false", Token.bool false)
    ∷ []

-- The operators of more than one character, in the order in which they are tried.
abbrev pub operators : List (Chars × Token)
operators =
    (codes "->", Token.arrow)
    ∷ (codes "...", Token.spread)
    ∷ (codes "==", Token.eq)
    ∷ (codes "!=", Token.not_eq)
    ∷ (codes "<=", Token.lt_eq)
    ∷ (codes ">=", Token.gt_eq)
    ∷ (codes "&&", Token.and)
    ∷ (codes "||", Token.or)
    ∷ []

-- The operators and the punctuation of one character.
abbrev pub marks : List (ℕ × Token)
marks =
    (b'<', Token.lt)
    ∷ (b'>', Token.gt)
    ∷ (b'!', Token.not)
    ∷ (b'+', Token.plus)
    ∷ (b'-', Token.minus)
    ∷ (b'*', Token.star)
    ∷ (b'%', Token.percent)
    ∷ (b'=', Token.assign)
    ∷ (b'{', Token.l_brace)
    ∷ (b'}', Token.r_brace)
    ∷ (b'[', Token.l_bracket)
    ∷ (b']', Token.r_bracket)
    ∷ (b'(', Token.l_paren)
    ∷ (b')', Token.r_paren)
    ∷ (b':', Token.colon)
    ∷ (b',', Token.comma)
    ∷ (b'.', Token.dot)
    ∷ (b'#', Token.hash)
    ∷ (b'$', Token.dollar)
    ∷ []

-- The variant of a token.
abbrev pub variant : Token → ℕ
variant (Token.int _) = 0
variant (Token.float _) = 1
variant (Token.bool _) = 2
variant (Token.string _) = 3
variant (Token.multiline_string _) = 4
variant (Token.regex _) = 5
variant (Token.ident _) = 6
variant Token.import = 7
variant Token.var = 8
variant Token.faker = 9
variant Token.relation = 10
variant Token.anonymize = 11
variant Token.exclude_data = 12
variant Token.ignore_table = 13
variant Token.ignore_relation = 14
variant Token.aggregate = 15
variant Token.get = 16
variant Token.preserve = 17
variant Token.set = 18
variant Token.after = 19
variant Token.root = 20
variant Token.where_word = 21
variant Token.order = 22
variant Token.by = 23
variant Token.limit = 24
variant Token.full = 25
variant Token.exclude = 26
variant Token.root_only = 27
variant Token.match = 28
variant Token.when = 29
variant Token.null = 30
variant Token.type_string = 31
variant Token.type_int = 32
variant Token.type_float = 33
variant Token.type_bool = 34
variant Token.asc = 35
variant Token.desc = 36
variant Token.arrow = 37
variant Token.spread = 38
variant Token.eq = 39
variant Token.not_eq = 40
variant Token.lt_eq = 41
variant Token.gt_eq = 42
variant Token.and = 43
variant Token.or = 44
variant Token.lt = 45
variant Token.gt = 46
variant Token.not = 47
variant Token.plus = 48
variant Token.minus = 49
variant Token.star = 50
variant Token.slash = 51
variant Token.percent = 52
variant Token.assign = 53
variant Token.l_brace = 54
variant Token.r_brace = 55
variant Token.l_bracket = 56
variant Token.r_bracket = 57
variant Token.l_paren = 58
variant Token.r_paren = 59
variant Token.colon = 60
variant Token.comma = 61
variant Token.dot = 62
variant Token.hash = 63
variant Token.dollar = 64

abbrev pub payload_eq : Token → Token → Bool
payload_eq (Token.int m) (Token.int n) = int_eq m n
payload_eq (Token.float m) (Token.float n) = m == n
payload_eq (Token.bool true) (Token.bool b) = b
payload_eq (Token.bool false) (Token.bool b) = if b then false else true
payload_eq (Token.string s) (Token.string t) = bytes_eq s t
payload_eq (Token.multiline_string s) (Token.multiline_string t) = bytes_eq s t
payload_eq (Token.regex s) (Token.regex t) = bytes_eq s t
payload_eq (Token.ident s) (Token.ident t) = bytes_eq s t
payload_eq _ _ = true

-- `PartialEq`, for tokens without a float: the same variant with the same payload.
unfoldable pub token_eq : Token → Token → Bool
token_eq a b = variant a == variant b && payload_eq a b

-- `token_as_ident`: a keyword as a plain identifier.
unfoldable pub token_as_ident : Token → Option Chars
token_as_ident (Token.ident s) = some s
token_as_ident Token.import = some (codes "import")
token_as_ident Token.var = some (codes "var")
token_as_ident Token.faker = some (codes "faker")
token_as_ident Token.relation = some (codes "relation")
token_as_ident Token.anonymize = some (codes "anonymize")
token_as_ident Token.exclude_data = some (codes "exclude_data")
token_as_ident Token.ignore_table = some (codes "ignore_table")
token_as_ident Token.ignore_relation = some (codes "ignore_relation")
token_as_ident Token.aggregate = some (codes "aggregate")
token_as_ident Token.get = some (codes "get")
token_as_ident Token.preserve = some (codes "preserve")
token_as_ident Token.set = some (codes "set")
token_as_ident Token.after = some (codes "after")
token_as_ident Token.root = some (codes "root")
token_as_ident Token.where_word = some (codes "where")
token_as_ident Token.order = some (codes "order")
token_as_ident Token.by = some (codes "by")
token_as_ident Token.limit = some (codes "limit")
token_as_ident Token.full = some (codes "full")
token_as_ident Token.exclude = some (codes "exclude")
token_as_ident Token.root_only = some (codes "root_only")
token_as_ident Token.match = some (codes "match")
token_as_ident Token.when = some (codes "when")
token_as_ident Token.null = some (codes "null")
token_as_ident Token.type_string = some (codes "string")
token_as_ident Token.type_int = some (codes "int")
token_as_ident Token.type_float = some (codes "float")
token_as_ident Token.type_bool = some (codes "bool")
token_as_ident Token.asc = some (codes "asc")
token_as_ident Token.desc = some (codes "desc")
token_as_ident _ = none
