-- ===== src/Amp/TagTree.antt =====
-- amp/amp.support.tags.go: trees of tags and their leaves. A content type is a text in lower-case ASCII
-- bytes; a leaf that is nil is none.
pub mod Laws
mod Tests
use amp_sdk.Base.{
  ℕ, ◌+◌, Bool, true, false, not, ◌&&◌, ◌||◌, List, [], ◌∷◌, ◌++◌, Option, none, some, leb, ◌==◌,
  if◌then◌else◌,
}
use amp_sdk.Tag.Uid.Base32.{codes}
use amp_sdk.Amp.Member.{has_bytes}

pub record Leaf : Type 0 where
  pub content_type_raw : List ℕ
  pub text : List ℕ
  pub attached : List ℕ

mutual
  pub data Tags : Type 0 where
    branch : Option Leaf → List (Option Leaf) → Children → Tags

  pub data Children : Type 0 where
    no_child : Children
    nil_child : Children → Children
    child : Tags → Children → Children

-- DefaultContentType
abbrev pub default_content_type : List ℕ
default_content_type = codes "text/plain"

-- `strings.ToLower` on ASCII.
unfoldable pub lower_char : ℕ → ℕ
lower_char c = if leb 65 c && leb c 90 then c + 32 else c

unfoldable pub to_lower : List ℕ → List ℕ
to_lower [] = []
to_lower (c ∷ text) = lower_char c ∷ to_lower text

unfoldable pub same_text : List ℕ → List ℕ → Bool
same_text [] [] = true
same_text [] (b ∷ ys) = false
same_text (a ∷ xs) [] = false
same_text (a ∷ xs) (b ∷ ys) = a == b && same_text xs ys

unfoldable pub tag_text : List ℕ → List ℕ → Leaf
tag_text content_type text =
    let lowered = to_lower content_type in
    record {
      content_type_raw = if same_text lowered default_content_type then [] else lowered;
      text = text;
      attached = [];
    }

unfoldable pub tag_from_data : List ℕ → List ℕ → Leaf
tag_from_data content_type bytes = record {
  content_type_raw = to_lower content_type;
  text = [];
  attached = bytes;
}

-- `Tag.ContentType`
unfoldable pub content_type : Option Leaf → List ℕ
content_type none = []
content_type (some leaf) =
    if has_bytes leaf.content_type_raw then to_lower leaf.content_type_raw else default_content_type

-- `Tag.Validate`: whether it is legal.
unfoldable pub validate_leaf : Option Leaf → Bool
validate_leaf none = true
validate_leaf (some leaf) = not (has_bytes leaf.attached) || has_bytes leaf.content_type_raw

abbrev pub head_leaf : Option Leaf → List (Option Leaf)
head_leaf none = []
head_leaf (some leaf) = some leaf ∷ []

-- `Walk`: the leaves in the order of their visits.
unfoldable mutual
  pub walk_tags : Tags → List (Option Leaf)
  walk_tags (branch head subs children) = head_leaf head ++ (subs ++ walk_children children)

  pub walk_children : Children → List (Option Leaf)
  walk_children no_child = []
  walk_children (nil_child rest) = walk_children rest
  walk_children (child t rest) = walk_tags t ++ walk_children rest

-- The visits of `Tags.Validate`, with whether one has refused so far.
unfoldable pub validate_visits : List (Option Leaf) → Bool → Bool
validate_visits [] legal = legal
validate_visits (leaf ∷ leaves) legal =
    validate_visits leaves (if legal then validate_leaf leaf else false)

unfoldable pub validate_tags : Tags → Bool
validate_tags t = validate_visits (walk_tags t) true

unfoldable pub first_of_type : List ℕ → List (Option Leaf) → Option (Option Leaf)
first_of_type wanted [] = none
first_of_type wanted (sub ∷ subs) =
    let rest = first_of_type wanted subs in
    if same_text (content_type sub) wanted then some sub else rest

-- `ByContentType`: the head and then its siblings, not the children.
unfoldable pub by_content_type : List ℕ → Tags → Option (Option Leaf)
by_content_type wanted (branch head subs children) =
    first_of_type (to_lower wanted) (head_leaf head ++ subs)
