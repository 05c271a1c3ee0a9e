-- ===== src/Text/Order.antt =====
-- The order of strings in Text.antt is a total order.
use p2p_container_distributi.Prelude.{
  ◌≡◌, refl, true, false, not, [], ◌∷◌, arith, Bytes, bytes_eq, bytes_beq, ◌==◌,
}
use p2p_container_distributi.Text.{bytes_le}

pub bytes_le_trans :
    (a b c : Bytes) → bytes_le a b ≡ true → bytes_le b c ≡ true → bytes_le a c ≡ true
unfolding bytes_le
bytes_le_trans [] b c h k = refl
bytes_le_trans (x ∷ a) [] c h k = cc
bytes_le_trans (x ∷ a) (y ∷ b) [] h k = cc
bytes_le_trans (x ∷ a) (y ∷ b) (z ∷ c) h k = ground (arith, bytes_le_trans a b c)

-- Of two different strings, one comes first.
pub bytes_le-flip : (a b : Bytes) → (a == b) ≡ false → bytes_le a b ≡ not (bytes_le b a)
unfolding bytes_le bytes_beq
bytes_le-flip [] [] h = cc
bytes_le-flip [] (y ∷ b) h = refl
bytes_le-flip (x ∷ a) [] h = refl
bytes_le-flip (x ∷ a) (y ∷ b) h = ground (arith, bytes_le-flip a b)
