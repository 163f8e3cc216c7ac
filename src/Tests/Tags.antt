-- ===== src/Tests/Tags.antt =====
-- Tests of `irc2markup` (src/core/util.cpp).
use minbif.Prelude.{◌≡◌, refl, [], ◌∷◌, ◌++◌, Text, codes}
use minbif.Result.{ok}
use minbif.Markup.{
  irc2markup, markup_loop, control, two_digits, one_digit, onward, closings, font_tag, colour,
  irc_colors, atoi, background,
}
use minbif.Markup.Total.{irc2markup_total}

-- The reset closes the tag, and so does the end of the text.
irc2markup_reset :
    irc2markup (λ t. t) (2 ∷ (codes "a" ++ 15 ∷ codes "b")) ≡ ok (codes "<B>a</B>b</B>")
unfolding irc2markup markup_loop control onward two_digits one_digit closings minbif.Token.upto
    background font_tag
irc2markup_reset = refl

-- Nothing closes a tag that opens at the end.
irc2markup_open : irc2markup (λ t. t) (codes "a" ++ 2 ∷ []) ≡ ok (codes "a<B>")
unfolding irc2markup markup_loop control onward two_digits one_digit closings minbif.Token.upto
    background font_tag
irc2markup_open = refl

irc2markup_colour :
    irc2markup (λ t. t) (3 ∷ codes "04,01red")
    ≡ ok (codes "<FONT COLOR=\"red\" BACK=\"black\">red</FONT>")
unfolding irc2markup markup_loop control onward two_digits one_digit closings minbif.Token.upto
    background font_tag colour irc_colors atoi
irc2markup_colour = refl

irc2markup_total_example : (decoded : Text) × (irc2markup (λ t. t) (2 ∷ codes "bold") ≡ ok decoded)
irc2markup_total_example = irc2markup_total (λ t. t) (2 ∷ codes "bold")
