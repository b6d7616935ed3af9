-- ===== src/Reader/Tests.antt =====
-- Documents that are read, broken ones included.
use kdsoap.Prelude.{
  ℕ, Text, List, [], ◌∷◌, Option, none, some, true, false, codes, ◌≡◌, refl, arith, length,
}
use kdsoap.Examples.{qt}
use kdsoap.Request.{soap1_1}
use kdsoap.Value.Samples.{texts}
use kdsoap.Reader.Envelope.{
  Stream, not_well_formed, custom, Pass, XmlError, xml_to_message, handle_not_well_formed_error,
}
use kdsoap.Reader.Retry.{xml_to_message-some}
use kdsoap.RoundTrip.Messages.{new_pass}

-- A reader that stops at the sixth byte of whatever it is given.
abbrev stubborn : Text → Stream
stubborn s = record {
  tokens = [];
  at_end = record {
    kind = not_well_formed;
    code = codes "3";
    line = codes "1";
    column = codes "6";
    message = codes "bad";
    offset = 6;
  };
  raise = λ t. record {
    kind = custom;
    code = codes "2";
    line = codes "1";
    column = codes "6";
    message = t;
    offset = 6;
  };
}

abbrev forbidden : Text
forbidden = codes "&#x1;/>"

cleaned : handle_not_well_formed_error qt (b'<' ∷ forbidden) 6 ≡ codes "<?/>"
unfolding handle_not_well_formed_error kdsoap.Prelude.index_of_char kdsoap.Socket.mid
    kdsoap.Prelude.starts_with
cleaned = refl

xml_to_message-some_example :
    (r : Pass (Option Text) × XmlError) × (xml_to_message texts qt stubborn 8 soap1_1
        (b'<' ∷ forbidden)
        (new_pass texts)
      ≡ some r)
xml_to_message-some_example =
    xml_to_message-some texts qt stubborn 8 soap1_1 forbidden (new_pass texts) (omega arith)
