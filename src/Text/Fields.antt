-- ===== src/Text/Fields.antt =====
-- strings.Fields: the words of a text between runs of white space.
use kong_gateway_cert_lite.Prelude.{List, [], ◌∷◌, ◌++◌, if◌then◌else◌, is_empty}
use kong_gateway_cert_lite.Text.{Text, is_space}

-- The word so far, then the rest of the text.
fields_from : Text → Text → List Text
fields_from word [] = if is_empty word then [] else word ∷ []
fields_from word (c ∷ s) =
    let next = fields_from [] s in
    let longer = fields_from (word ++ c ∷ []) s in
    if is_space c then (if is_empty word then next else word ∷ next) else longer

unfoldable pub fields : Text → List Text
unfolding fields_from
fields s = fields_from [] s
