-- ===== src/Server/Ldap/Messages.antt =====
-- The texts that the handlers of pkg/server/ldap_server.go log.
use interactsh.Prelude.{List, [], ◌∷◌, ◌++◌, Text, codes}

pub data Operation : Type 0 where
  add_values delete_values replace_values other_operation : Operation

pub record Change : Type 0 where
  pub operation : Operation
  pub attribute : Text
  pub vals : List Text

unfoldable pub operation_string : Operation → Text
operation_string add_values = codes "Add"
operation_string delete_values = codes "Delete"
operation_string replace_values = codes "Replace"
operation_string other_operation = []

-- A line of the message: a label and a value.
abbrev pub line : Text → Text → Text
line label value = label ++ (value ++ codes "\n")

unfoldable pub attribute_lines : Text → List Text → Text
attribute_lines kind [] = []
attribute_lines kind (v ∷ vs) =
    (codes "Attribute Name=" ++ (kind ++ line (codes " Attribute Value=") v))
    ++ attribute_lines kind vs

unfoldable pub entry_lines : List (Text × List Text) → Text
unfolding attribute_lines
entry_lines [] = []
entry_lines ((kind, vals) ∷ rest) = attribute_lines kind vals ++ entry_lines rest

-- strings.Join(vals, " - ")
unfoldable pub join_values : List Text → Text
join_values [] = []
join_values (v ∷ []) = v
join_values (v ∷ w ∷ vs) = v ++ (codes " - " ++ join_values (w ∷ vs))

unfoldable pub change_lines : List Change → Text
unfolding operation_string join_values
change_lines [] = []
change_lines (c ∷ cs) =
    (codes "Operation="
      ++ (operation_string c.operation
          ++ (codes " Attribute="
              ++ (c.attribute ++ (codes " Values=[" ++ (join_values c.vals ++ codes "]\n"))))))
    ++ change_lines cs

unfoldable pub search_text : Text → Text → Text → Text → Text
search_text base filter attributes time_limit =
    codes "Type=Search\n"
    ++ (line (codes "BaseDn=") base
        ++ (line (codes "Filter=") filter
            ++ (line (codes "FilterString=") filter
                ++ (line (codes "Attributes=") attributes
                    ++ line (codes "TimeLimit=") time_limit))))
