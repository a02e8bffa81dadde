-- ===== src/Go/Shape.antt =====
-- The shapes of the JSON documents that the services write.
use llm_proxy_study_project.Prelude.{ℕ, ◌≤◌, String, Bool, true, false, ◌&&◌, ◌==◌, ◌≡◌}
use llm_proxy_study_project.Go.Json.{
  Json, Items, Fields, null, num, str, arr, obj, nil, cons, end, field,
}
use llm_proxy_study_project.Go.Json.Names.{in_order}
use llm_proxy_study_project.Go.Http.{Response, write_json, write_error}

mutual
  pub data Shape : Type 0 where
    text : Shape
    whole : Shape
    list_of : Shape → Shape
    -- An object of a map: any names, in order, whose values have one shape.
    map_of : Shape → Shape
    -- An object with these fields, in this order.
    struct : Members → Shape
    nullable : Shape → Shape

  pub data Members : Type 0 where
    no_more : Members
    member : String → Shape → Members → Members

unfoldable pub all_items : (Json → Bool) → Items → Bool
all_items p nil = true
all_items p (cons v vs) = p v && all_items p vs

unfoldable pub all_values : (Json → Bool) → Fields → Bool
all_values p end = true
all_values p (field _ v fs) = p v && all_values p fs

unfoldable mutual
  pub has_shape : Shape → Json → Bool
  has_shape text (str _) = true
  has_shape whole (num _) = true
  has_shape (list_of s) (arr vs) = all_items (has_shape s) vs
  has_shape (map_of s) (obj fs) = in_order fs && all_values (has_shape s) fs
  has_shape (struct ms) (obj fs) = has_members ms fs
  has_shape (nullable s) null = true
  has_shape (nullable s) v = has_shape s v
  has_shape _ _ = false

  pub has_members : Members → Fields → Bool
  has_members no_more end = true
  has_members (member name s ms) (field key v fs) =
      key == name && (has_shape s v && has_members ms fs)
  has_members _ _ = false

-- A document of a shape.
abbrev pub HasShape : Shape → Json → Type 0
HasShape s v = has_shape s v ≡ true

-- What an endpoint answers: its status of success with a document of its shape, or an error, which
-- is a status of 400 or more with a text.
pub data IsTyped (good : ℕ) (s : Shape) : Response → Type 0 where
  fine : {v : Json} → HasShape s v → IsTyped good s (write_json good v)
  failed : {status : ℕ} {msg : String} → 400 ≤ status → IsTyped good s (write_error status msg)

abbrev pub health_shape : Shape
health_shape = struct (member "status" text no_more)

-- What /stats of every service answers.
abbrev pub stats_shape : Shape
stats_shape = struct (
    member "requests" (struct (member "by_status" (map_of whole) (member "total" whole no_more))) (
      member "service" text
        (member "started_at" text (member "uptime_seconds" whole (member "version" text no_more)))))
