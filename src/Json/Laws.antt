-- ===== src/Json/Laws.antt =====
-- The laws of the map of a JSON object.
use act_api_server_rs.Prelude.{◌≡◌, refl, ◌∙◌, false, none, some, arith, if◌then◌else◌}
use act_api_server_rs.Text.{Text, text_eq}
use act_api_server_rs.Text.Laws.{text_eq_refl, text_eq_iff}
use act_api_server_rs.Json.{Value, Fields, end, field, get, insert, remove}

pub get-insert :
    (j k : Text) (v : Value) (m : Fields)
    → get j (insert k v m) ≡ (if text_eq k j then some v else get j m)
unfolding get insert
get-insert j k v end = refl
get-insert j k v (field i w m) =
    ground (arith, text_eq_iff k j, text_eq_iff i k, text_eq_iff i j, get-insert j k v m)

pub get-remove :
    (j k : Text) (m : Fields) → get j (remove k m) ≡ (if text_eq k j then none else get j m)
unfolding get remove
get-remove j k end = ground arith
get-remove j k (field i w m) =
    ground (arith, text_eq_iff k j, text_eq_iff i k, text_eq_iff i j, get-remove j k m)

pub get-insert_self : (k : Text) (v : Value) (m : Fields) → get k (insert k v m) ≡ some v
get-insert_self k v m = get-insert k k v m ∙ rw (text_eq_refl k) refl

pub get-insert_ne :
    (j k : Text) (v : Value) (m : Fields) → text_eq k j ≡ false → get j (insert k v m) ≡ get j m
get-insert_ne j k v m h = get-insert j k v m ∙ rw h refl

pub get-remove_self : (k : Text) (m : Fields) → get k (remove k m) ≡ none
get-remove_self k m = get-remove k k m ∙ rw (text_eq_refl k) refl

pub get-remove_ne : (j k : Text) (m : Fields) → text_eq k j ≡ false → get j (remove k m) ≡ get j m
get-remove_ne j k m h = get-remove j k m ∙ rw h refl
