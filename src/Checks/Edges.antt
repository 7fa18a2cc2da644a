-- ===== src/Checks/Edges.antt =====
-- Lines of edges.
use dippin_lang.Base.{Str, List, [], ◌∷◌, ◌++◌, ◌≡◌, refl, bytes, some, pos, contains, ◌==◌, length}
use dippin_lang.Ir.{Edge}
use dippin_lang.Ir.Lookup.{no_location, plain_edge}
use dippin_lang.Parser.Lexer.Line.{
  TokenType, token_identifier, token_arrow, token_operator, token_colon, token_newline,
  token_literal, token_outdent,
}
use dippin_lang.Parser.Lexer.{LexToken}
use dippin_lang.Parser.Edges.{
  EdgeParser, condition_parts, attributes_loop, digits_value, atoi, parse_single_edge,
  parse_edges_body,
}
use dippin_lang.Parser.Edges.Fuel.{ParsesBody, ReadsAttributes, edge_loops_end}
use dippin_lang.Parser.Edges.Attributes.{
  Writes, plain, weight, when, IsKeyword, condition_of, parse_single_edge-Writes,
}

abbrev token : TokenType → Str → LexToken
token type value = record { type = type; value = value; location = no_location }

abbrev word : Str → LexToken
word value = token token_identifier value

abbrev end : LexToken
end = token token_newline []

abbrev behind : EdgeParser
behind = record { stream = []; end_location = no_location; diagnostics = []; edges = [] }

abbrev condition : List LexToken
condition =
    word (bytes "ctx.x") ∷ token token_operator (bytes "=") ∷ token token_literal (bytes "a b") ∷ []

abbrev attributes : List LexToken
attributes =
    (word (bytes "when") ∷ condition
      ++ word (bytes "weight") ∷ token token_colon (bytes ":") ∷ word (bytes "3") ∷ [])

abbrev heavy : Edge
heavy = record (plain_edge (bytes "a") (bytes "b")) {
  condition = some (condition_of condition);
  weight = pos 3;
}

key : (w : Str) → IsKeyword w (word w)
key w = record { spelled = refl; inside = refl; bare = refl }

attributes-Writes : Writes (plain_edge (bytes "a") (bytes "b")) attributes heavy
unfolding ◌==◌ contains atoi digits_value
attributes-Writes =
    when condition (word (bytes "weight") ∷ token token_colon (bytes ":") ∷ word (bytes "3") ∷ [])
      (key (bytes "when")) ((refl, refl), ((refl, refl), ((refl, refl), tt))) refl
      (weight (key (bytes "weight")) refl refl plain)

parse_single_edge-Writes_example :
    parse_single_edge (record behind {
      stream =
          word (bytes "a") ∷ token token_arrow (bytes "->") ∷ word (bytes "b") ∷ attributes
          ++ end ∷ [];
    })
    ≡ record behind { stream = []; edges = [] ++ heavy ∷ [] }
parse_single_edge-Writes_example =
    parse_single_edge-Writes behind (word (bytes "a")) (token token_arrow (bytes "->"))
      (word (bytes "b")) end attributes [] heavy refl refl attributes-Writes

-- A quoted value that is spelled like a keyword ends its condition.
keyword_ends_condition :
    condition_parts
      (token token_operator (bytes "=") ∷ token token_literal (bytes "label") ∷ end ∷ [])
    ≡ (bytes "=" ∷ [], token token_literal (bytes "label") ∷ end ∷ [])
unfolding condition_parts ◌==◌ contains
keyword_ends_condition = refl

abbrev one_line : EdgeParser
one_line = record behind {
  stream =
      word (bytes "a")
      ∷ token token_arrow (bytes "->")
      ∷ word (bytes "b")
      ∷ end
      ∷ token token_outdent []
      ∷ [];
}

edge_loops_end_example :
    ParsesBody one_line (parse_edges_body (length one_line.stream) one_line)
    × ((e : Edge)
        → ReadsAttributes e one_line (attributes_loop (length one_line.stream) e one_line))
edge_loops_end_example = edge_loops_end one_line
