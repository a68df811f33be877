-- ===== src/Image/Output/Negotiation.antt =====
-- About the two places that choose an output format.
use nexide.Prelude.{◌≡◌, refl, ◌∙◌, inl, inr, List, [], ◌∷◌, some, arith, Bool-cases}
use nexide.Prelude.Text.{Text}
use nexide.Ops.Request.{is_empty}
use nexide.Image.Output.{
  SourceFormat, OutputFormat, from_mime, accept_contains, first_accepted, negotiate_accept,
  choose_output, preselect_loop, preselect_output,
}

-- Every configured format is one that the optimizer can write.
unfoldable pub AreWritable : List Text → Type 0
AreWritable [] = Unit
AreWritable (f ∷ formats) = ((g : OutputFormat) × (from_mime f ≡ some g)) × AreWritable formats

preselect_loop-first :
    (accept : Text) (formats : List Text) (g : OutputFormat)
    → AreWritable formats
    → preselect_loop accept formats ≡ some g
    → (m : Text) × (first_accepted accept formats ≡ some m) × (from_mime m ≡ some g)
unfolding AreWritable preselect_loop first_accepted
preselect_loop-first accept [] g w h = absurd (ground arith)
preselect_loop-first accept (f ∷ formats) g ((g', e), w) h =
    elim (Bool-cases (accept_contains accept f)) [
      | inl t ↦
          let found = rw (preselect_loop, t, e) at h in (f, rw (first_accepted, t) refl, e ∙ found)
      | inr other ↦
          let (m, first, written) =
            preselect_loop-first accept formats g w (rw (preselect_loop, other) at h) in
          (m, rw (first_accepted, other) first, written)
    ]

-- If every configured format can be written, the output format that the handler looks up in the
-- memory cache before it reads the source is the one that it chooses afterwards, whatever the
-- source's own format.
pub choose_output-preselected :
    (source : SourceFormat) (accept : Text) (formats : List Text) (g : OutputFormat)
    → AreWritable formats
    → preselect_output accept formats ≡ some g
    → choose_output source accept formats ≡ g
unfolding preselect_output choose_output negotiate_accept
choose_output-preselected source accept formats g w h = elim (Bool-cases (is_empty accept)) [
  | inl t ↦ let gone = rw (preselect_output, t) at h in absurd (ground arith)
  | inr f ↦
      let (m, first, written) =
        preselect_loop-first accept formats g w (rw (preselect_output, f) at h) in
      rw (choose_output, negotiate_accept, f, first, written) refl
]
