-- ===== src/Redis/Pairs.antt =====
-- The pairs that `HYield` of redis/client.go sends.
use icinga_go_library.Prelude.{
  ℕ, zero, suc, Bool, true, false, ◌≡◌, refl, sym, ap, subst, ◌∙◌, List, [], ◌∷◌, ◌++◌, map, Text,
  if◌then◌else◌, Bool-cases, inl, inr,
}
use icinga_go_library.Database.SplitOnDupId.{contains, Distinct, Distinct-snoc, map-snoc}
use icinga_go_library.Redis.{
  HPair, Reply, page, failed_reply, Progress, scanning, complete, reply_error, context_over,
  index_panic, Scan, new_scan, scan_page, end_of_page, take_reply, hyield_from, hyield,
}

abbrev field_of : HPair → Text
field_of p = p.field

-- the map holds the fields that were sent, and each was sent once
record IsUnique (s : Scan) : Type 0 where
  same : s.seen ≡ map field_of s.sent
  once : Distinct (map field_of s.sent)

send-IsUnique :
    (f v : Text) (s : Scan)
    → contains f s.seen ≡ false
    → IsUnique s
    → IsUnique (record s {
      seen = s.seen ++ f ∷ [];
      sent = s.sent ++ record { field = f; value = v } ∷ [];
    })
send-IsUnique f v s fresh u =
    let grown = map-snoc field_of s.sent (record { field = f; value = v }) in
    record {
      same = ap (λ l. l ++ f ∷ []) u.same ∙ sym grown;
      once = subst Distinct (sym grown) (
          Distinct-snoc f (map field_of s.sent) (subst (λ l. contains f l ≡ false) u.same fresh)
            u.once);
    }

scan_page-IsUnique : (n : ℕ) (l : List Text) (s : Scan) → IsUnique s → IsUnique (scan_page n l s)
unfolding scan_page
scan_page-IsUnique n [] s u = u
scan_page-IsUnique n (f ∷ []) s u = elim (Bool-cases (contains f s.seen)) [
  | inl e ↦ rw (e, if◌then◌else◌) u
  | inr e ↦ rw (e, if◌then◌else◌) (record { same = u.same; once = u.once })
]
scan_page-IsUnique zero (f ∷ v ∷ rest) s u = elim (Bool-cases (contains f s.seen)) [
  | inl e ↦ rw (e, if◌then◌else◌) (scan_page-IsUnique zero rest s u)
  | inr e ↦ rw (e, if◌then◌else◌) (record { same = u.same; once = u.once })
]
scan_page-IsUnique (suc n) (f ∷ v ∷ rest) s u = elim (Bool-cases (contains f s.seen)) [
  | inl e ↦ rw (e, if◌then◌else◌) (scan_page-IsUnique (suc n) rest s u)
  | inr e ↦ rw (e, if◌then◌else◌) (scan_page-IsUnique n rest _ (send-IsUnique f v s e u))
]

end_of_page-IsUnique :
    (more : Bool) (p : Progress) (s : Scan) → IsUnique s → IsUnique (end_of_page more p s)
unfolding end_of_page
end_of_page-IsUnique true scanning s u = u
end_of_page-IsUnique false scanning s u = record { same = u.same; once = u.once }
end_of_page-IsUnique more complete s u = u
end_of_page-IsUnique more reply_error s u = u
end_of_page-IsUnique more context_over s u = u
end_of_page-IsUnique more index_panic s u = u

take_reply-IsUnique : (r : Reply) (s : Scan) → IsUnique s → IsUnique (take_reply r s)
unfolding take_reply
take_reply-IsUnique failed_reply s u = record { same = u.same; once = u.once }
take_reply-IsUnique (page l more sends) s u =
    end_of_page-IsUnique more (scan_page sends l s).progress (scan_page sends l s)
      (scan_page-IsUnique sends l s u)

hyield_from-IsUnique :
    (rs : List Reply) (p : Progress) (s : Scan) → IsUnique s → IsUnique (hyield_from rs p s)
unfolding hyield_from
hyield_from-IsUnique [] p s u = u
hyield_from-IsUnique (r ∷ rs) scanning s u =
    hyield_from-IsUnique rs (take_reply r s).progress (take_reply r s) (take_reply-IsUnique r s u)
hyield_from-IsUnique (r ∷ rs) complete s u = u
hyield_from-IsUnique (r ∷ rs) reply_error s u = u
hyield_from-IsUnique (r ∷ rs) context_over s u = u
hyield_from-IsUnique (r ∷ rs) index_panic s u = u

-- Whatever pages the server sends, with whatever repetitions and in whatever order, and wherever the scan
-- ends, `HYield` sends no field twice.
pub hyield-Distinct : (rs : List Reply) → Distinct (map (λ p. p.field) (hyield rs).sent)
unfolding hyield new_scan
hyield-Distinct rs =
    (hyield_from-IsUnique rs scanning new_scan (record { same = refl; once = tt })).once
