-- ===== src/Crawler/Reason.antt =====
-- lib-lopez/src/crawler/reason.rs: why a page links to another.
use lopez.Prelude.{Text, bytes, Bool, true, false, Ordering}

pub data Reason : Type 0 where
  ahref redirect canonical : Reason

-- `derive(Ord)`: in the order of declaration.
unfoldable pub reason_cmp : Reason → Reason → Ordering
reason_cmp ahref ahref = Ordering.eq
reason_cmp ahref _ = Ordering.lt
reason_cmp redirect ahref = Ordering.gt
reason_cmp redirect redirect = Ordering.eq
reason_cmp redirect canonical = Ordering.lt
reason_cmp canonical canonical = Ordering.eq
reason_cmp canonical _ = Ordering.gt

unfoldable pub reason_text : Reason → Text
reason_text ahref = bytes "ahref"
reason_text redirect = bytes "redirect"
reason_text canonical = bytes "canonical"

abbrev pub is_ahref : Reason → Bool
is_ahref ahref = true
is_ahref _ = false

abbrev pub is_canonical : Reason → Bool
is_canonical canonical = true
is_canonical _ = false

abbrev pub is_redirect : Reason → Bool
is_redirect redirect = true
is_redirect _ = false
