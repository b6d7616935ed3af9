-- ===== src/NameMapper.antt =====
-- The names that the code generator escapes: kdwsdl2cpp/src/namemapper.cpp.
pub mod Escaping
mod Tests
use kdsoap.Prelude.{
  Text, List, [], ◌∷◌, ◌++◌, Bool, true, false, if◌then◌else◌, codes, drop, eq_text, starts_with,
}

-- The keywords of C++, and those of Qt.
abbrev pub key_words : List Text
key_words =
    codes "and"
    ∷ codes "and_eq"
    ∷ codes "asm"
    ∷ codes "auto"
    ∷ codes "bitand"
    ∷ codes "bitor"
    ∷ codes "bool"
    ∷ codes "break"
    ∷ codes "case"
    ∷ codes "catch"
    ∷ codes "char"
    ∷ codes "class"
    ∷ codes "compl"
    ∷ codes "const"
    ∷ codes "const_cast"
    ∷ codes "continue"
    ∷ codes "default"
    ∷ codes "delete"
    ∷ codes "do"
    ∷ codes "double"
    ∷ codes "dynamic_cast"
    ∷ codes "else"
    ∷ codes "enum"
    ∷ codes "explicit"
    ∷ codes "export"
    ∷ codes "extern"
    ∷ codes "false"
    ∷ codes "FALSE"
    ∷ codes "float"
    ∷ codes "for"
    ∷ codes "friend"
    ∷ codes "goto"
    ∷ codes "if"
    ∷ codes "inline"
    ∷ codes "int"
    ∷ codes "long"
    ∷ codes "mutable"
    ∷ codes "namespace"
    ∷ codes "new"
    ∷ codes "not"
    ∷ codes "not_eq"
    ∷ codes "operator"
    ∷ codes "or"
    ∷ codes "or_eq"
    ∷ codes "private"
    ∷ codes "protected"
    ∷ codes "public"
    ∷ codes "register"
    ∷ codes "reinterpret_cast"
    ∷ codes "return"
    ∷ codes "short"
    ∷ codes "signed"
    ∷ codes "sizeof"
    ∷ codes "static"
    ∷ codes "static_cast"
    ∷ codes "struct"
    ∷ codes "switch"
    ∷ codes "template"
    ∷ codes "this"
    ∷ codes "throw"
    ∷ codes "true"
    ∷ codes "TRUE"
    ∷ codes "try"
    ∷ codes "typedef"
    ∷ codes "typeid"
    ∷ codes "typename"
    ∷ codes "union"
    ∷ codes "unsigned"
    ∷ codes "using"
    ∷ codes "virtual"
    ∷ codes "void"
    ∷ codes "volatile"
    ∷ codes "wchar_t"
    ∷ codes "while"
    ∷ codes "xor"
    ∷ codes "xor_eq"
    ∷ codes "emit"
    ∷ codes "signals"
    ∷ codes "slots"
    ∷ codes "foreach"
    ∷ []

-- mKeyWords.contains(name)
pub contains : List Text → Text → Bool
contains [] name = false
contains (k ∷ ks) name = if eq_text k name then true else contains ks name

pub escape : Text → Text
unfolding contains
escape name = if contains key_words name then name ++ codes "_" else name

pub unescape : Text → Text
unescape name = if starts_with name (codes "_") then drop 1 name else name
