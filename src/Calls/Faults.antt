-- ===== src/Calls/Faults.antt =====
-- A fault from the server object to the exception of the client: setFault and storeFaultAttributes
-- of src/KDSoapServer/KDSoapServerObjectInterface.cpp, sendReply, the reader and
-- KDSoapFaultException::deserialize together.
use kdsoap.Value.{Variants, Value}
use kdsoap.Value.Contents.{Content, Contents, item, no_items, items}
use kdsoap.Message.{Message}
use kdsoap.Calls.{FaultException, read_argument}

module _ {V : Type 0} (q : Variants V) where
  -- What deserialize makes of what a value says.
  abbrev read_contents : FaultException V → Contents → FaultException V
  read_contents x no_items = x
  read_contents x (items (item name ns t ats cs) rest) =
      read_contents (read_argument q x name t) rest

  abbrev contents_in : Content → Contents
  contents_in (item name ns t ats cs) = cs
