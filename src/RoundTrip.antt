-- ===== src/RoundTrip.antt =====
-- A message that KDSoapMessageWriter writes and KDSoapMessageReader reads:
-- src/KDSoapClient/KDSoapMessageWriter.cpp and KDSoapMessageReader.cpp together.
pub mod Declared
pub mod Sent
pub mod Printable
mod Erased
pub mod Shapes
pub mod Messages
mod Tests
