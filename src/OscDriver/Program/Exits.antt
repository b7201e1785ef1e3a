-- ===== src/OscDriver/Program/Exits.antt =====
-- How the OSC driver ends (osc_driver.cpp).
