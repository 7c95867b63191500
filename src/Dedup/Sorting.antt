-- ===== src/Dedup/Sorting.antt =====
-- src/dedup.rs: the sort of the positions does not depend on the order of the map's values.
use mathlib.Core.List.{Perm, Permᴰ}
use mathlib.Core.Logic.{∥∥₁_elim}
use relyt_ingest.Common.{◌<◌, ◌≡◌, refl, ◌∙◌, true, List, [], ◌∷◌, arith, All, ◌⊎◌}
use relyt_ingest.Dedup.{Position, position_leb, insert_position, sort_positions}

insert_commute :
    (p q : Position) (ps : List Position)
    → insert_position p (insert_position q ps) ≡ insert_position q (insert_position p ps)
unfolding insert_position
insert_commute (a, r) (b, s) [] = ground arith
insert_commute (a, r) (b, s) ((c, t) ∷ ps) = ground (arith, insert_commute (a, r) (b, s) ps)

sort_of_permᴰ : {ps qs : List Position} → Permᴰ ps qs → sort_positions ps ≡ sort_positions qs
unfolding sort_positions
sort_of_permᴰ Permᴰ.nil = refl
sort_of_permᴰ (Permᴰ.cons e d) = cc (e, sort_of_permᴰ d)
sort_of_permᴰ (Permᴰ.swap {a} {b} {l = l} e f) = cc (e, f, insert_commute a b (sort_positions l))
sort_of_permᴰ (Permᴰ.trans d e) = sort_of_permᴰ d ∙ sort_of_permᴰ e

Positions_set : IsSet (List Position)
Positions_set = hlevel

pub sort_of_perm : {ps qs : List Position} → Perm ps qs → sort_positions ps ≡ sort_positions qs
sort_of_perm {ps} {qs} h =
    ∥∥₁_elim h (Positions_set (sort_positions ps) (sort_positions qs)) sort_of_permᴰ

-- Every position is before all that follow it.
abbrev pub Before : Position → Position → Type 0
Before (a, r) (b, s) = (a < b) ⊎ ((a ≡ b) × (r < s))

abbrev pub IsAscending : List Position → Type 0
IsAscending [] = Unit
IsAscending (p ∷ ps) = All (Before p) ps × IsAscending ps

Before-leb : (p q : Position) → Before p q → position_leb p q ≡ true
Before-leb (a, r) (b, s) h = ground arith

insert_first :
    (p : Position) (ps : List Position) → All (Before p) ps → insert_position p ps ≡ p ∷ ps
unfolding insert_position
insert_first p [] h = refl
insert_first p (q ∷ qs) h = rw (Before-leb p q h.0) refl

pub sort_of_IsAscending : (ps : List Position) → IsAscending ps → sort_positions ps ≡ ps
unfolding sort_positions
sort_of_IsAscending [] h = refl
sort_of_IsAscending (p ∷ ps) h = rw (sort_of_IsAscending ps h.1) (insert_first p ps h.0)
