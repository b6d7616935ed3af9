-- ===== src/RoundTrip/Messages.antt =====
-- A message without headers that is written and read again.
use kdsoap.Prelude.{Text, [], none, false, ◌&&◌, eq_text, codes, ◌≡◌}
use kdsoap.Namespaces.{Prefixes}
use kdsoap.Xml.{Nodes, join}
use kdsoap.Value.{Variants, Value, node}
use kdsoap.Value.Writing.{literal_use}
use kdsoap.Value.Contents.{Content, item, content_of}
use kdsoap.Value.Trees.{text_nodes, value_trees}
use kdsoap.Message.{Message, new_message}
use kdsoap.Writer.{Writer, message_namespace}
use kdsoap.Reader.Envelope.{Pass, is_envelope_namespace}

module _ {V : Type 0} (q : Variants V) where
  abbrev pub new_pass : Pass V
  new_pass = record {
    message = new_message q;
    message_namespace = [];
    headers = [];
    raised = none;
    broken = false;
  }

  abbrev content_name : Content → Text
  content_name (item name ns t ats cs) = name

  abbrev tree_content : Prefixes → Text → Value V → Nodes
  tree_content prefixes mns (node f ats vs) =
      join (value_trees q prefixes literal_use mns false vs) (text_nodes q f)

  -- What is known of a message that was read.
  abbrev pub IsRead : Content → Text → Text → Pass V → Type 0
  IsRead c name ns r =
      (content_of q r.message.value ≡ c)
      × (r.message.is_fault ≡ (eq_text name (codes "Fault") && is_envelope_namespace ns))
      × (r.raised ≡ none)
      × (r.broken ≡ false)
