-- ===== src/Amp/TagTree/Tests.antt =====
-- The theorems on tag trees at a tree with a bad leaf two levels down.
use amp_sdk.Base.{[], ◌∷◌, none, some}
use amp_sdk.Tag.Uid.Base32.{codes}
use amp_sdk.Amp.TagTree.{Tags, branch, no_child, child, tag_text, tag_from_data}

abbrev tree : Tags
tree =
    branch (some (tag_text (codes "text/html") (codes "x"))) (none ∷ [])
      (child (branch none (some (tag_from_data [] (1 ∷ [])) ∷ []) no_child) no_child)
