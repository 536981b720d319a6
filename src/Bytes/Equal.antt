-- ===== src/Bytes/Equal.antt =====
-- `==` on Go strings.
use whatsapp_mcp_plugin.Prelude.{◌≡◌, refl, true, [], ◌∷◌, arith}
use whatsapp_mcp_plugin.Bytes.{Text, equal}

pub equal→eq : (a b : Text) → equal a b ≡ true → a ≡ b
unfolding equal
equal→eq [] [] h = refl
equal→eq [] (d ∷ b) h = ground (arith, h)
equal→eq (c ∷ a) [] h = ground (arith, h)
equal→eq (c ∷ a) (d ∷ b) h = ground (arith, h, equal→eq a b)

pub equal_refl : (a : Text) → equal a a ≡ true
unfolding equal
equal_refl [] = refl
equal_refl (c ∷ a) = ground (arith, equal_refl a)

pub equal_sym : (a b : Text) → equal a b ≡ equal b a
unfolding equal
equal_sym [] [] = refl
equal_sym [] (d ∷ b) = refl
equal_sym (c ∷ a) [] = refl
equal_sym (c ∷ a) (d ∷ b) = ground (arith, equal_sym a b)
