-- ===== src/PakFix/Scanned.antt =====
-- src/pak_fix.cpp: that `Fixer::scan` ends in a sound state.
use bg3le.Common.{
  ℕ, zero, suc, ◌+◌, ◌-◌, ◌<◌, ◌≤◌, ◌&&◌, ◌||◌, not, Option, none, some, List, [], ◌∷◌, length,
  get_or, ltb, leb, leb-false, ◌==◌, Bool-cases, inl, inr, arith,
}
use bg3le.Lsf.Document.{LsfDocument, LsfString}
use bg3le.PakFix.Paths.{context}
use bg3le.PakFix.State.{Fixer, range}
use bg3le.PakFix.Scan.{
  content_at, token, string_end, scan_loop, scan_text, scan_strings, scan_content, scan_from, scan,
}
use bg3le.PakFix.Steps.{count, IsSound, Ends, Ends-some}
use bg3le.PakFix.Pinned.{Ends-then}
use bg3le.PakFix.Tokens.{token-Ends}

string_end-le : (n : ℕ) (text : List ℕ) (q at : ℕ) → at ≤ string_end n text q at
unfolding string_end
string_end-le zero text q at = omega arith
string_end-le (suc n) text q at =
    let next = string_end-le n text q (at + 1) in
    elim (Bool-cases
      (ltb at (length text) && (not (get_or text at 0 == q) && not (get_or text at 0 == 10)))) [
        | inl p ↦ rw p (omega (arith, next))
        | inr p ↦ rw p (omega arith)
      ]

-- The fuel is more than the characters that are left.
scan_loop-Ends :
    (n c : ℕ) (text : List ℕ) (files : List (List ℕ)) (line at : ℕ) (f : Fixer)
    → IsSound f
    → length text - at < n
    → Ends (count f) (scan_loop n c text files line at f)
unfolding scan_loop
scan_loop-Ends zero c text files line at f h enough = absurd (omega arith)
scan_loop-Ends (suc n) c text files line at f h enough =
    let q = get_or text at 0 in
    let end' = string_end 256 text q (at + 1) in
    let behind : at + 1 ≤ end' = string_end-le 256 text q (at + 1) in
    elim (Bool-cases (leb (length text) at)) [
      | inl p ↦ rw p (Ends-some (count f) f h (omega arith))
      | inr p ↦
          let more = leb-false (length text) at p in
          let next : length text - (at + 1) < n = omega (arith, more, enough) in
          elim (Bool-cases (q == 10)) [
            | inl p1 ↦ rw (p, p1) (scan_loop-Ends n c text files (at + 1) (at + 1) f h next)
            | inr p1 ↦ elim (Bool-cases (not (q == 34) && not (q == 39))) [
              | inl p2 ↦ rw (p, p1, p2) (scan_loop-Ends n c text files line (at + 1) f h next)
              | inr p2 ↦
                  elim (Bool-cases (leb (length text) end' || not (get_or text end' 0 == q))) [
                    | inl p3 ↦
                        rw (p, p1, p2, p3) (scan_loop-Ends n c text files line (at + 1) f h next)
                    | inr p3 ↦
                        let len = end' - at - 1 in
                        let here = context (range text line at) in
                        rw (p, p1, p2, p3)
                          (Ends-then (count f) (token c (at + 1) len here files f)
                            (scan_loop n c text files line (end' + 1))
                            (token-Ends c (at + 1) len here files f h)
                            (λ f' h' m.
                              scan_loop-Ends n c text files line (end' + 1) f' h'
                                (omega (arith, more, enough, behind))))
                  ]
            ]
          ]
    ]

scan_strings-Ends :
    (c : ℕ) (strings : List LsfString) (files : List (List ℕ)) (f : Fixer)
    → IsSound f
    → Ends (count f) (scan_strings c strings files f)
unfolding scan_strings
scan_strings-Ends c [] files f h = Ends-some (count f) f h (omega arith)
scan_strings-Ends c (s ∷ strings) files f h =
    Ends-then (count f) (token c s.offset s.length s.attribute files f)
      (scan_strings c strings files) (token-Ends c s.offset s.length s.attribute files f h)
      (λ f' h' m. scan_strings-Ends c strings files f' h')

scan_content-Ends :
    (c : ℕ) (doc : Option LsfDocument) (files : List (List ℕ)) (f : Fixer)
    → IsSound f
    → Ends (count f) (scan_content c doc files f)
unfolding scan_content scan_text
scan_content-Ends c (some doc) files f h = scan_strings-Ends c doc.string_values files f h
scan_content-Ends c none files f h =
    let text = (content_at f c).text in
    scan_loop-Ends (suc (length text)) c text files 0 0 f h (omega arith)

scan_from-Ends :
    (n c : ℕ) (files : List (List ℕ)) (f : Fixer)
    → IsSound f
    → Ends (count f) (scan_from n c files f)
unfolding scan_from
scan_from-Ends zero c files f h = Ends-some (count f) f h (omega arith)
scan_from-Ends (suc n) c files f h =
    Ends-then (count f) (scan_content c (content_at f c).doc files f) (scan_from n (c + 1) files)
      (scan_content-Ends c (content_at f c).doc files f h)
      (λ f' h' m. scan_from-Ends n (c + 1) files f' h')

pub scan-Ends : (files : List (List ℕ)) (f : Fixer) → IsSound f → Ends (count f) (scan files f)
unfolding scan
scan-Ends files f h = scan_from-Ends (length f.contents) 0 files f h
